-- ===== src/Csi/Create/Holds.antt =====
-- The size of the volume that CreateVolume answers with.
use carina.Base.{
  String, ℕ, ℤ, pos, pos_part, ◌+◌, ◌*◌, ◌^◌, ◌≤◌, ◌<◌, ◌≤ℤ◌, ◌≡◌, refl, ap, subst, ◌∙◌, arith,
  IsInt64, shl30, to_int64, to_int64-eq, ◌*ℤ◌, Bool, true, false, Option, none, some, List, [], ◌∷◌,
  Map, text_at, to_lower, not, ◌&&◌, ◌||◌, inl, inr, ◌⊎◌, ◌==◌, leb_ℤ, slice_from, parse_int64,
  quot, mul64, if◌then◌else◌,
}
use carina.Errors.{Result, ok, err, status, failed_precondition, invalid_argument, fail_if}
use carina.Locks.{StringSet}
use carina.Locks.Scope.{guarded_result}
use carina.Placement.Candidates.{Wanted}
use carina.Service.{Timed}
use carina.Service.Getter.{get_by_volume_id}
use carina.Volume.{Op, give, read}
use carina.Csi.{
  CreateVolumeRequest, VolumeCapability, Volume, Services, Controller, if_empty, fails_with,
  as_returned, parameters,
}
use carina.Csi.Request.{
  reason, check_capabilities, request_size, convert_request_capacity, volume_cache_disk_ratio,
}
use carina.Csi.Request.Sizes.{Rounds, Converted, taken, turned_down, convert_request_capacity_lem}
use carina.Csi.Bcache.{
  Wish, make, part, tolerated, looked_up, test_nodes, wish_of, precondition, with_cache_name,
  create_both, create_bcache_volume, backend_key, cache_key, in_percents, value,
}
use carina.Csi.Create.{
  create_volume, create_body, create_single, by_kind, with_context, wanted_of, place, request_of,
  response, scheduled_node, host_unplaced,
}
use carina.Csi.Ends.{
  AnyError, Ends, EndsIn, EndsIn-after, EndsIn-then, EndsIn-give, EndsIn-if, Ends-if,
}

shl30-pos : (n : ℕ) → n * 2 ^ 30 < 2 ^ 63 → shl30 (pos n) ≡ pos (n * 2 ^ 30)
unfolding shl30 ◌*ℤ◌
shl30-pos n h = ap to_int64 product ∙ to_int64-eq (pos (n * 2 ^ 30)) (h, omega arith)
  where
    product : pos n *ℤ pos (2 ^ 30) ≡ pos (n * 2 ^ 30)
    product = unfold ◌*ℤ◌ in ground arith

-- The size in GiB holds the bytes asked for.
abbrev HoldsGb : ℤ → ℤ → Type 0
HoldsGb bytes gb = bytes ≤ℤ shl30 gb

Rounds-HoldsGb :
    (bytes gb : ℤ) → pos_part bytes + 2 ^ 30 ≤ 2 ^ 63 → Rounds bytes gb → HoldsGb bytes gb
Rounds-HoldsGb bytes gb small r =
    rw (r.same_bytes, r.same, shl30-pos r.size (below r.tight)) (omega (arith, r.holds))
  where
    asked_small : r.asked + 2 ^ 30 ≤ 2 ^ 63
    asked_small = rw r.same_bytes at small

    below : (r.size ≡ 1) ⊎ (r.size * 2 ^ 30 < r.asked + 2 ^ 30) → r.size * 2 ^ 30 < 2 ^ 63
    below (inl one) = omega (arith, one)
    below (inr lt) = omega (arith, lt, asked_small)

-- What a call answers with has this size.
abbrev OfSize : ℤ → Volume → Type 0
OfSize gb volume = volume.capacity_bytes ≡ shl30 gb

size-HoldsGb :
    (bytes limit : ℤ)
    → IsInt64 bytes
    → pos_part bytes + 2 ^ 30 ≤ 2 ^ 63
    → Ends AnyError (HoldsGb bytes) (request_size bytes limit)
unfolding request_size
size-HoldsGb bytes limit wide small = judged (convert_request_capacity_lem bytes limit wide)
  where
    judged :
        Converted bytes limit
        → Ends AnyError
            (HoldsGb bytes)
            (fails_with (reason invalid_argument "") (convert_request_capacity bytes limit))
    judged (taken gb f e r) = rw e (Rounds-HoldsGb bytes gb small r)
    judged (turned_down x f e) = rw e tt

module _ {W : Type 0} (s : Services W) where
  -- The single volume
  context-OfSize :
      (gb : ℤ) (p : Option (Map String)) (set : Map String → Map String)
      (volume : Map String → Volume)
      → ((entries : Map String) → OfSize gb (volume entries))
      → Ends AnyError (OfSize gb) (with_context s p set volume)
  context-OfSize gb none set volume h = tt
  context-OfSize gb (some entries) set volume h = h (set entries)

  create_single-OfSize :
      (r : CreateVolumeRequest) (wanted : Wanted) (pv_name path node : String)
      → EndsIn AnyError (OfSize wanted.request_gb) (create_single s r wanted pv_name path node)
  unfolding create_single
  create_single-OfSize r wanted pv_name path node =
      EndsIn-then _ (read (λ t. place s r wanted node t.1)) _ (λ placed.
        EndsIn-then _ (make s as_returned (request_of s r wanted pv_name placed.0 placed.1)) _
          (λ device.
            EndsIn-give AnyError _ (response s r placed.1 placed.0 path wanted.request_gb device)
              (context-OfSize wanted.request_gb r.parameters _ _ (λ entries. refl))))

  -- The volume with a cache
  cached-OfSize :
      (gb : ℤ) (rest : Option String) (wish : String → Wish)
      → ((name : String) → (wish name).backend_gb ≡ gb)
      → Ends AnyError (λ w. w.backend_gb ≡ gb) (with_cache_name rest wish)
  cached-OfSize gb none wish h = tt
  cached-OfSize gb (some rest) wish h = h _

  wish_of-OfSize :
      (r : CreateVolumeRequest) (pv_name : String) (gb : ℤ)
      → Ends AnyError (λ w. w.backend_gb ≡ gb) (wish_of r pv_name gb)
  unfolding wish_of precondition
  wish_of-OfSize r pv_name gb =
      let given = parameters r in
      let ratio = parse_int64 (text_at volume_cache_disk_ratio given) in
      let cache_gb = quot (mul64 gb (value ratio)) 100 in
      Ends-if AnyError _ (text_at backend_key given == "") _ _ tt (
        Ends-if AnyError _ (text_at cache_key given == "") _ _ tt (
          Ends-if AnyError _ (not (in_percents ratio)) _ _ tt (
            Ends-if AnyError _ (leb_ℤ cache_gb (pos 0) || leb_ℤ gb (pos 0)) _ _ tt
              (cached-OfSize gb (slice_from 6 pv_name) _ (λ name. refl)))))

  create_both-OfSize :
      (r : CreateVolumeRequest) (wish : Wish) (node : String)
      → EndsIn AnyError (OfSize wish.backend_gb) (create_both s r wish node)
  unfolding create_both
  create_both-OfSize r wish node =
      EndsIn-then _
        (make s tolerated (part s r node wish.backend_group wish.backend_name wish.backend_gb "")) _
        (λ backend.
          EndsIn-then _
            (read (λ t. looked_up s backend.0 (get_by_volume_id s.client backend.0 t.1))) _
            (λ lv.
              EndsIn-then _
                (make s as_returned
                  (part s r node wish.cache_group wish.cache_name wish.cache_gb lv.name))
                _ (λ cache. EndsIn-give AnyError _ (ok _) refl)))

  create_bcache_volume-OfSize :
      (r : CreateVolumeRequest) (node : String) (gb : ℤ)
      → EndsIn AnyError (OfSize gb) (create_bcache_volume s r node gb)
  unfolding create_bcache_volume
  create_bcache_volume-OfSize r node gb =
      EndsIn-after AnyError (λ w. w.backend_gb ≡ gb) _ _ _
        (EndsIn-give AnyError _ _
          (Ends-if AnyError _ (r.name == "") _ _ tt (wish_of-OfSize r (to_lower r.name) gb)))
        (λ wish same. EndsIn-then _ (read (λ t. test_nodes s r wish node t.1)) _ (λ done.
          subst (λ g. EndsIn AnyError (OfSize g) (create_both s r wish node)) same
            (create_both-OfSize r wish node)))

  by_kind-OfSize :
      (r : CreateVolumeRequest) (wanted : Wanted) (pv_name node : String)
      → EndsIn AnyError (OfSize wanted.request_gb) (by_kind s r wanted pv_name node)
  by_kind-OfSize r wanted pv_name node =
      let ratio = text_at volume_cache_disk_ratio (parameters r) in
      EndsIn-if AnyError _ (not (ratio == "") && not (ratio == "0")) _ _
        (create_bcache_volume-OfSize r node wanted.request_gb)
        (create_single-OfSize r wanted pv_name _ node)

  -- The size of a volume is one that holds the bytes asked for.
  abbrev Holds : ℤ → Volume → Type 0
  Holds bytes volume = bytes ≤ℤ volume.capacity_bytes

  widened :
      (bytes gb : ℤ) (op : Op (Timed W) Volume)
      → HoldsGb bytes gb
      → EndsIn AnyError (OfSize gb) op
      → EndsIn AnyError (Holds bytes) op
  widened bytes gb op holds e = record { ends = λ t. wider (op t).0 (e.ends t) }
    where
      wider : (r : Result Volume) → Ends AnyError (OfSize gb) r → Ends AnyError (Holds bytes) r
      wider (err x) h = tt
      wider (ok volume) h = rw h holds

  create_body-Holds :
      (r : CreateVolumeRequest) (pv_name group : String)
      → IsInt64 r.required_bytes
      → pos_part r.required_bytes + 2 ^ 30 ≤ 2 ^ 63
      → EndsIn AnyError (Holds r.required_bytes) (create_body s r pv_name group)
  unfolding create_body wanted_of
  create_body-Holds r pv_name group wide small =
      EndsIn-then _ (give (check_capabilities r.volume_capabilities)) _ (λ done.
        EndsIn-after AnyError (HoldsGb r.required_bytes) _ _ _
          (EndsIn-give AnyError _ _ (size-HoldsGb r.required_bytes r.limit_bytes wide small))
          (λ gb holds. EndsIn-then _ (read (λ t. scheduled_node s r t.1)) _ (λ node.
            EndsIn-then _
              (give (
                fail_if (host_unplaced s group node)
                  (status failed_precondition "can not support host not select node")))
              _
              (λ done.
                widened r.required_bytes gb _ holds
                  (by_kind-OfSize r (wanted_of s r group gb) pv_name node)))))

  if_empty-Holds :
      {S : Type 0} (bytes : ℤ) (capabilities : List VolumeCapability)
      (x y : Result Volume × Controller S W)
      → Ends AnyError (Holds bytes) x.0
      → Ends AnyError (Holds bytes) y.0
      → Ends AnyError (Holds bytes) (if_empty capabilities x y).0
  if_empty-Holds bytes [] x y hx hy = hx
  if_empty-Holds bytes (_ ∷ _) x y hx hy = hy

  if-Holds :
      {S : Type 0} (bytes : ℤ) (b : Bool) (x y : Result Volume × Controller S W)
      → Ends AnyError (Holds bytes) x.0
      → Ends AnyError (Holds bytes) y.0
      → Ends AnyError (Holds bytes) (if b then x else y).0
  if-Holds bytes true x y hx hy = hx
  if-Holds bytes false x y hx hy = hy

  -- A volume that CreateVolume answers with, for a request of at most 2^63 - 2^30 bytes, has a
  -- capacity of at least the bytes asked for, with a cache or without.
  pub create_volume-Holds :
      {S : Type 0} (sets : StringSet S) (r : CreateVolumeRequest) (c : Controller S W)
      (volume : Volume)
      → IsInt64 r.required_bytes
      → pos_part r.required_bytes + 2 ^ 30 ≤ 2 ^ 63
      → (create_volume s sets r c).0 ≡ ok volume
      → r.required_bytes ≤ℤ volume.capacity_bytes
  unfolding create_volume
  create_volume-Holds sets r c volume wide small created =
      subst (Ends AnyError (Holds r.required_bytes)) created (
        if-Holds r.required_bytes (r.name == "") _ _ tt (
          if-Holds r.required_bytes r.content_source _ _ tt (
            if_empty-Holds r.required_bytes r.volume_capabilities _ _ tt (
              guarded_result sets (to_lower r.name) (Ends AnyError (Holds r.required_bytes)) (err _)
                _ c.0 c.1 tt ((create_body-Holds r (to_lower r.name) _ wide small).ends c.1)))))
