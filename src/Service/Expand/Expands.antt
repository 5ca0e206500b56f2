-- ===== src/Service/Expand/Expands.antt =====
-- What ExpandVolume waits for.
use carina.Base.{
  String, ℕ, suc, ℤ, ◌<◌, ◌≡◌, refl, ap, ◌∙◌, Bool, true, false, Option, none, some, shl30, arith,
  if◌then◌else◌,
}
use carina.Errors.{Code, code_ok, status, Result, ok, err}
use carina.Api.{LogicVolume}
use carina.Placement.{Found, found, not_found, failed}
use carina.Reconciler.Statuses.{is_code_ok}
use carina.Service.{Client, Timed, Written, written, conflict, refused, get_lv, context_done}
use carina.Service.Poll.{again, stop, watch}
use carina.Service.Poll.Runs.{Reaches, poll-ok, poll-none, after}
use carina.Service.Getter.{get_by_volume_id}
use carina.Service.Expand.{
  with_spec_size, judge_written, rewrite, same_size, judge_size, judge_expanded, update_spec_size,
  wait_expanded, after_update, expand_on, expand_found, expand_volume,
}

-- The object's status says that it has the size of its specification, and no error.
pub record IsExpanded (lv : LogicVolume) : Type 0 where
  pub current : ℤ
  pub known : lv.status.current_size ≡ some current
  pub same : current ≡ lv.spec.size
  pub healthy : lv.status.code ≡ code_ok

is_code_ok_lem : (c : Code) → is_code_ok c ≡ true → c ≡ code_ok
unfolding is_code_ok
is_code_ok_lem c h = ground (arith, h)

same_size_lem : (a b : ℤ) → same_size a b ≡ true → a ≡ b
same_size_lem a b h = ground (arith, h)

judge_sized :
    (lv : LogicVolume) (current : ℤ) (same healthy : Bool)
    → lv.status.current_size ≡ some current
    → same_size current lv.spec.size ≡ same
    → is_code_ok lv.status.code ≡ healthy
    → (if same
        then if healthy then stop (ok tt) else stop (err (status lv.status.code lv.status.message))
        else again)
      ≡ stop (ok tt)
    → IsExpanded lv
judge_sized lv current false healthy k s c h = cc h
judge_sized lv current true false k s c h = cc h
judge_sized lv current true true k s c h = record {
  current = current;
  known = k;
  same = same_size_lem current lv.spec.size s;
  healthy = is_code_ok_lem lv.status.code c;
}

judge_size-IsExpanded :
    (lv : LogicVolume) (size : Option ℤ)
    → lv.status.current_size ≡ size
    → judge_size lv size ≡ stop (ok tt)
    → IsExpanded lv
judge_size-IsExpanded lv none k h = cc h
judge_size-IsExpanded lv (some current) k h =
    judge_sized lv current (same_size current lv.spec.size) (is_code_ok lv.status.code) k refl refl
      h

judge_expanded-IsExpanded :
    (f : Found LogicVolume)
    → judge_expanded f ≡ stop (ok tt)
    → (lv : LogicVolume) × (f ≡ found lv) × IsExpanded lv
unfolding judge_expanded
judge_expanded-IsExpanded (not_found e) h = cc h
judge_expanded-IsExpanded (failed e) h = cc h
judge_expanded-IsExpanded (found lv) h =
    (lv, refl, judge_size-IsExpanded lv lv.status.current_size refl h)

judge_written-ok :
    {W : Type 0} (x : Written × W) {end : W}
    → judge_written x ≡ (stop (ok tt), end)
    → x ≡ (written, end)
judge_written-ok (written, w) h = ap (λ p. (written, p.1)) h
judge_written-ok (conflict e, w) h = cc h
judge_written-ok (refused e, w) h = cc h

rewrite-written :
    {W : Type 0} (write : LogicVolume → W → Written × W) (f : Found LogicVolume) (w : W) {end : W}
    → rewrite write f w ≡ (stop (ok tt), end)
    → (lv : LogicVolume) × (f ≡ found lv) × (write lv w ≡ (written, end))
rewrite-written write (not_found e) w h = cc h
rewrite-written write (failed e) w h = cc h
rewrite-written write (found lv) w h = (lv, refl, judge_written-ok (write lv w) h)

module _ {W : Type 0} (client : Client W) where
  -- In a world that the loop of the update, started in the first one, came to, the volume that was
  -- read with this id was written with the new size, and the server took it; this is the last world.
  pub record Resized (volume_id : String) (size : ℤ) (start end : W) : Type 0 where
    pub at : W
    pub reached :
        Reaches client.pass
          (λ v.
            rewrite
              (λ lv u. client.update (with_spec_size size (client.now u) lv) u)
              (get_by_volume_id client volume_id v)
              v)
          start
          at
    pub lv : LogicVolume
    pub read_it : get_by_volume_id client volume_id at ≡ found lv
    pub wrote : client.update (with_spec_size size (client.now at) lv) at ≡ (written, end)

  update_spec_size-Resized :
      (volume_id : String) (size : ℤ) (left : ℕ) (w : W) {t : Timed W}
      → update_spec_size client volume_id size (left, w) ≡ (ok tt, t)
      → Resized volume_id size w t.1
  unfolding update_spec_size
  update_spec_size-Resized volume_id size left w {t} h =
      let s =
        poll-ok client.pass
          (λ v.
            rewrite (λ lv u. client.update (with_spec_size size (client.now u) lv) u)
              (get_by_volume_id client volume_id v) v)
          left w h in
      let x = rewrite-written _ (get_by_volume_id client volume_id s.seen) s.seen s.verdict in
      record { at = s.seen; reached = s.reached; lv = x.0; read_it = x.1; wrote = x.2 }

  -- In a world that the waiting loop, started in the first one, looked at, the object has the size
  -- of its specification.
  pub record SeenExpanded (name : String) (start : W) : Type 0 where
    pub seen : W
    pub end : LogicVolume
    pub reached :
        Reaches client.pass (watch (λ w. judge_expanded (get_lv client name w))) start seen
    pub got : get_lv client name seen ≡ found end
    pub grown : IsExpanded end

  -- The size was written, and from the world of that write on the object was looked at until it had
  -- it.
  pub record Expanded (volume_id : String) (request_gb : ℤ) (left : ℕ) (w : W) : Type 0 where
    pub lv : LogicVolume
    pub found_it : get_by_volume_id client volume_id w ≡ found lv
    pub updated : W
    pub resized : Resized volume_id (shl30 request_gb) w updated
    pub seen : SeenExpanded lv.name updated

  wait_expanded-IsExpanded :
      (name : String) (left : ℕ) (w : W) {t : Timed W}
      → wait_expanded client name left w ≡ (ok tt, t)
      → SeenExpanded name w
  unfolding wait_expanded
  wait_expanded-IsExpanded name left w h =
      let s = poll-ok client.pass (watch (λ w. judge_expanded (get_lv client name w))) left w h in
      let j = judge_expanded-IsExpanded (get_lv client name s.seen) (ap (λ p. p.0) s.verdict) in
      record { seen = s.seen; end = j.0; reached = s.reached; got = j.1; grown = j.2 }

  after_update-ok :
      (name : String) (u : Result (Unit {0}) × Timed W) {t : Timed W}
      → after_update client name u ≡ (ok tt, t)
      → (u.0 ≡ ok tt) × (wait_expanded client name u.1.0 u.1.1 ≡ (ok tt, t))
  after_update-ok name (err e, (left, w)) h = cc h
  after_update-ok name (ok done, (left, w)) h = (refl, h)

  whole : (u : Result (Unit {0}) × Timed W) → u.0 ≡ ok tt → u ≡ (ok tt, u.1)
  whole u h = ap (λ r. (r, u.1)) h

  expand_on-Expanded :
      (volume_id : String) (lv : LogicVolume) (request_gb : ℤ) (node : Result (Unit {0})) (left : ℕ)
      (w : W) {t : Timed W}
      → get_by_volume_id client volume_id w ≡ found lv
      → expand_on client volume_id lv.name request_gb node (left, w) ≡ (ok tt, t)
      → Expanded volume_id request_gb left w
  expand_on-Expanded volume_id lv request_gb (err e) left w g h = cc h
  expand_on-Expanded volume_id lv request_gb (ok node) left w g h =
      let u =
        after_update-ok lv.name (update_spec_size client volume_id (shl30 request_gb) (left, w))
          h in
      record {
        lv = lv;
        found_it = g;
        updated = (update_spec_size client volume_id (shl30 request_gb) (left, w)).1.1;
        resized = update_spec_size-Resized volume_id (shl30 request_gb) left w (whole _ u.0);
        seen = wait_expanded-IsExpanded lv.name _ _ u.1;
      }

  expand_found-Expanded :
      (volume_id : String) (f : Found LogicVolume) (request_gb : ℤ) (left : ℕ) (w : W) {t : Timed W}
      → get_by_volume_id client volume_id w ≡ f
      → expand_found client volume_id request_gb f (left, w) ≡ (ok tt, t)
      → Expanded volume_id request_gb left w
  unfolding expand_found
  expand_found-Expanded volume_id (not_found e) request_gb left w g h = cc h
  expand_found-Expanded volume_id (failed e) request_gb left w g h = cc h
  expand_found-Expanded volume_id (found lv) request_gb left w g h =
      expand_on-Expanded volume_id lv request_gb _ left w g h

  -- If ExpandVolume succeeds, the volume was found, the new size was written to its specification,
  -- and in the waits that began after that write the object was looked at until it had the code OK
  -- and a current size that is the size in its specification.
  pub expand_volume-Expanded :
      (volume_id : String) (request_gb : ℤ) (left : ℕ) (w : W) (t : Timed W)
      → expand_volume client volume_id request_gb (left, w) ≡ (ok tt, t)
      → Expanded volume_id request_gb left w
  unfolding expand_volume
  expand_volume-Expanded volume_id request_gb left w t h =
      expand_found-Expanded volume_id (get_by_volume_id client volume_id w) request_gb left w refl h

  -- The object is seen with a current size that is not the one of its specification.
  pub record IsBehind (name : String) (w : W) : Type 0 where
    pub lv : LogicVolume
    pub current : ℤ
    pub got : get_lv client name w ≡ found lv
    pub known : lv.status.current_size ≡ some current
    pub differs : same_size current lv.spec.size ≡ false

  behind-again :
      (name : String) (w : W) → IsBehind name w → judge_expanded (get_lv client name w) ≡ again
  unfolding judge_expanded
  behind-again name w b = ap judge_expanded b.got ∙ ap (judge_size b.lv) b.known ∙ rw b.differs

  -- While the current size is not the one of the specification, the wait of ExpandVolume goes on
  -- until the context is done, whatever the code and the message in the status say.
  pub expand_failure_waits :
      (name : String) (left : ℕ) (w : W)
      → ((j : ℕ) → j < left → IsBehind name (after client.pass (suc j) w))
      → wait_expanded client name left w ≡ (err context_done, (0, after client.pass left w))
  unfolding wait_expanded
  expand_failure_waits name left w behind =
      poll-none client.pass (λ u. judge_expanded (get_lv client name u)) left w
        (λ j lt. behind-again name _ (behind j lt))
