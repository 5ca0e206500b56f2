-- ===== src/Service/Create/Creates.antt =====
-- What a successful CreateVolume means.
use carina.Base.{
  ℕ, ◌≡◌, ◌≢◌, refl, ap, subst, Bool, true, false, ◌==◌, arith, eq_iff, if◌then◌else◌,
}
use carina.Errors.{Error, status, already_exists, Result, ok, err}
use carina.Api.{LogicVolume, is_compatible_with}
use carina.Placement.{Found, found, not_found, failed}
use carina.Service.{Client, Timed, get_lv}
use carina.Service.Poll.{Verdict, again, stop}
use carina.Service.Poll.Runs.{Reaches, Stopped, poll-ok}
use carina.Service.Create.{
  Request, Device, new_lv, admit, admitted, judge_created, wait_created, create_volume,
}
use carina.Reconciler.Statuses.{is_code_ok}

module _ {W : Type 0} (client : Client W) (r : Request) where
  -- The object exists: there was one of the same name and size, or one was created.
  pub data Admitted (w : W) : W → Type 0 where
    existed :
        (lv : LogicVolume)
        → get_lv client r.pv_name w ≡ found lv
        → is_compatible_with lv (new_lv r) ≡ true
        → Admitted w w
    created :
        (e : Error) {v : W}
        → get_lv client r.pv_name w ≡ not_found e
        → client.create (new_lv r) w ≡ (ok tt, v)
        → Admitted w v

  -- A volume of the name was seen with an id, which is what is returned, with its device numbers.
  pub record IsSeen (start : W) (device : Device) : Type 0 where
    pub seen : W
    pub lv : LogicVolume
    pub reached :
        Reaches client.pass (λ w. judge_created client (get_lv client r.pv_name w) w) start seen
    pub got : get_lv client r.pv_name seen ≡ found lv
    pub named : lv.status.volume_id ≢ ""
    pub same : device ≡ (lv.status.volume_id, (lv.status.device_major, lv.status.device_minor))

  judged_found :
      (empty code : Bool) (lv : LogicVolume) (undone w : W) {device : Device} {end : W}
      → (lv.status.volume_id == "") ≡ empty
      → ◌≡◌ {A = Verdict Device × W}
          (if empty
            then if code
              then (again, w)
              else (stop (err (status lv.status.code lv.status.message)), undone)
            else (
              stop (ok (lv.status.volume_id, (lv.status.device_major, lv.status.device_minor))),
              w,
            ))
          (stop (ok device), end)
      → (lv.status.volume_id ≢ "")
        × (device ≡ (lv.status.volume_id, (lv.status.device_major, lv.status.device_minor)))
  judged_found true true lv undone w e h = cc h
  judged_found true false lv undone w e h = cc h
  judged_found false code lv undone w e h =
      (λ same. ground (arith, e, same, eq_iff lv.status.volume_id ""), cc h)

  judged_created :
      (f : Found LogicVolume) (w : W) {device : Device} {end : W}
      → judge_created client f w ≡ (stop (ok device), end)
      → (lv : LogicVolume) × (f ≡ found lv)
        × (lv.status.volume_id ≢ "")
        × (device ≡ (lv.status.volume_id, (lv.status.device_major, lv.status.device_minor)))
  unfolding judge_created
  judged_created (not_found e) w h = cc h
  judged_created (failed e) w h = cc h
  judged_created (found lv) w h =
      let found_it =
        judged_found (lv.status.volume_id == "") (is_code_ok lv.status.code) lv _ w refl h in
      (lv, refl, found_it.0, found_it.1)

  seen :
      {start : W} {device : Device} {end : W}
      (s : Stopped client.pass
        (λ v. judge_created client (get_lv client r.pv_name v) v)
        start
        (ok device)
        end)
      → IsSeen start device
  seen s =
      let j = judged_created (get_lv client r.pv_name s.seen) s.seen s.verdict in
      record { seen = s.seen; lv = j.0; reached = s.reached; got = j.1; named = j.2; same = j.3 }

  wait_created-IsSeen :
      (left : ℕ) (w : W) {device : Device} {t : Timed W}
      → wait_created client r.pv_name left w ≡ (ok device, t)
      → IsSeen w device
  unfolding wait_created
  wait_created-IsSeen left w h =
      seen (poll-ok client.pass (λ v. judge_created client (get_lv client r.pv_name v) v) left w h)

  admit-Admitted :
      (f : Found LogicVolume) (w v : W)
      → get_lv client r.pv_name w ≡ f
      → admit client (new_lv r) f w ≡ (ok tt, v)
      → Admitted w v
  unfolding admit
  admit-Admitted (failed e) w v g h = cc h
  admit-Admitted (not_found e) w v g h = created e g h
  admit-Admitted (found lv) w v g h = compatible (is_compatible_with lv (new_lv r)) refl h
    where
      compatible :
          (b : Bool)
          → is_compatible_with lv (new_lv r) ≡ b
          → ◌≡◌ {A = Result (Unit {0}) × W}
              (if b
                then (ok tt, w)
                else (err (status already_exists "Incompatible LogicVolume already exists"), w))
              (ok tt, v)
          → Admitted w v
      compatible true e h = subst (Admitted w) (ap (λ p. p.1) h) (existed lv g e)
      compatible false e h = cc h

  admitted-ok :
      (left : ℕ) (x : Result (Unit {0}) × W) {device : Device} {t : Timed W}
      → admitted client (wait_created client r.pv_name left) left x ≡ (ok device, t)
      → (x ≡ (ok tt, x.1)) × (wait_created client r.pv_name left x.1 ≡ (ok device, t))
  admitted-ok left (err e, v) h = cc h
  admitted-ok left (ok done, v) h = (refl, h)

  -- If CreateVolume returns a volume id and device numbers, an object of the name existed with the
  -- size asked for or was created with it; and after a number of waits in which that object had
  -- neither an id nor an error, it was seen with that id, which is not empty, and these numbers.
  pub create_volume-Created :
      (left : ℕ) (w : W) (device : Device) (t : Timed W)
      → create_volume client r (left, w) ≡ (ok device, t)
      → (v : W) × Admitted w v × IsSeen v device
  unfolding create_volume
  create_volume-Created left w device t h =
      let a = admitted-ok left (admit client (new_lv r) (get_lv client r.pv_name w) w) h in
      (
        (admit client (new_lv r) (get_lv client r.pv_name w) w).1,
        admit-Admitted (get_lv client r.pv_name w) w _ refl a.0,
        wait_created-IsSeen left _ a.1,
      )
