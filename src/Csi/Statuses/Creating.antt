-- ===== src/Csi/Statuses/Creating.antt =====
-- The errors of CreateVolume.
use carina.Base.{
  String, ℤ, pos, quot, mul64, leb_ℤ, slice_from, parse_int64, Bool, true, false, Option, none,
  some, List, [], ◌∷◌, Map, text_at, to_lower, ◌==◌, ◌&&◌, ◌||◌, not,
}
use carina.Errors
use carina.Errors.{
  Error, plain, status, panic, Code, code_ok, aborted, already_exists, failed_precondition,
  not_found as not_found_code, resource_exhausted, Result, ok, err, fail_if, invalid_argument,
  internal,
}
use carina.Locks.{StringSet}
use carina.Locks.Scope.{guarded_result}
use carina.Placement.Candidates.{Wanted}
use carina.Placement.Select.{select_device_group, select_node, select_multi_volume_node}
use carina.Service.Getter.{get_by_volume_id}
use carina.Service.Create.{Device, Request}
use carina.Csi.{
  CreateVolumeRequest, VolumeCapability, AccessType, AccessMode, block, mount, unknown, unset,
  single_node_writer, other_mode, Volume, Services, Controller, if_empty, parameters, as_returned,
}
use carina.Csi.Request.{
  instead, check_capabilities, access_type_known, access_mode_supported, volume_cache_disk_ratio,
}
use carina.Csi.Bcache.{
  make, create_bcache_volume, wish_of, test_nodes, create_both, looked_up, tolerated, tested,
  precondition, with_cache_name, Wish, in_percents, value, backend_key, cache_key,
}
use carina.Csi.Create.{
  create_volume, create_body, create_single, place, by_kind, chosen, grouped, with_context,
  host_unplaced, wanted_of, scheduled_node,
}
use carina.Csi.Statuses.{
  Typed, TypedOp, TypedOp-after, reason-IsStatus, instead-IsStatus, request_size-Typed,
  looked_up-Typed, if-Typed,
}
use carina.Csi.Ends.{
  IsStatus, Anything, Ends, EndsIn-give, EndsIn-read, EndsIn-if, Ends-if, Ends-fails_with,
  as_returned-Ends,
}

-- The steps of CreateVolume
access_type_known-Typed : (a : AccessType) → Typed (access_type_known a)
unfolding access_type_known
access_type_known-Typed block = tt
access_type_known-Typed mount = tt
access_type_known-Typed unknown = tt

access_mode_supported-Typed : (m : AccessMode) → Typed (access_mode_supported m)
unfolding access_mode_supported
access_mode_supported-Typed unset = tt
access_mode_supported-Typed single_node_writer = tt
access_mode_supported-Typed (other_mode name) = tt

first-Typed :
    {A : Type 0} (first : Result (Unit {0})) (second : Result A)
    → Typed first
    → Typed second
    → Typed (Errors.◌>>◌ first second)
first-Typed (err e) second h g = h
first-Typed (ok done) second h g = g

check_capabilities-Typed :
    (capabilities : List VolumeCapability) → Typed (check_capabilities capabilities)
unfolding check_capabilities
check_capabilities-Typed [] = tt
check_capabilities-Typed (capability ∷ capabilities) =
    first-Typed _ _ (access_type_known-Typed capability.access_type) (
      first-Typed _ _ (access_mode_supported-Typed capability.access_mode)
        (check_capabilities-Typed capabilities))

module _ {W : Type 0} (s : Services W) where
  chosen-Typed : (r : Result (String × String)) → Typed (chosen s r)
  chosen-Typed (err e) = reason-IsStatus _ _ e
  chosen-Typed (ok (node, group)) =
      Ends-if IsStatus Anything (node == "") _ _ tt
        (Ends-if IsStatus Anything (group == "") _ _ tt tt)

  grouped-Typed : (node : String) (r : Result String) → Typed (grouped s node r)
  grouped-Typed node (err e) = reason-IsStatus _ _ e
  grouped-Typed node (ok group) = Ends-if IsStatus Anything (group == "") _ _ tt tt

  place-Typed :
      (r : CreateVolumeRequest) (wanted : Wanted) (node : String) (w : W)
      → Typed (place s r wanted node w)
  unfolding place
  place-Typed r wanted node w =
      Ends-if IsStatus Anything (node == "") _ _
        (chosen-Typed
          (select_node s.selectors s.strategy (s.cluster w) wanted r.accessibility_requirements))
        (Ends-if IsStatus Anything (wanted.volume_type == "host") _ _ tt (
          grouped-Typed node
            (select_device_group s.selectors s.strategy (s.cluster w) wanted node)))

  context-Typed :
      (p : Option (Map String)) (set : Map String → Map String) (volume : Map String → Volume)
      → Typed (with_context s p set volume)
  context-Typed none set volume = tt
  context-Typed (some entries) set volume = tt

  make-Typed :
      (judge : Result Device → Result Device) (request : Request)
      → ((r : Result Device) → Typed (judge r))
      → TypedOp (make s judge request)
  unfolding make
  make-Typed judge request h = record { ends = λ t. h _ }

  create_single-Typed :
      (r : CreateVolumeRequest) (wanted : Wanted) (pv_name path node : String)
      → TypedOp (create_single s r wanted pv_name path node)
  unfolding create_single
  create_single-Typed r wanted pv_name path node =
      TypedOp-after _ _ (EndsIn-read IsStatus Anything _ (λ t. place-Typed r wanted node t.1))
        (λ placed.
          TypedOp-after _ _ (make-Typed as_returned _ as_returned-Ends)
            (λ device. EndsIn-give IsStatus Anything _ (context-Typed r.parameters _ _)))

  -- The steps of CreateBcacheVolume
  wish_of-Typed :
      (r : CreateVolumeRequest) (pv_name : String) (gb : ℤ) → Typed (wish_of r pv_name gb)
  unfolding wish_of precondition
  wish_of-Typed r pv_name gb =
      let given = parameters r in
      let ratio = parse_int64 (text_at volume_cache_disk_ratio given) in
      let cache_gb = quot (mul64 gb (value ratio)) 100 in
      Ends-if IsStatus Anything (text_at backend_key given == "") _ _ tt (
        Ends-if IsStatus Anything (text_at cache_key given == "") _ _ tt (
          Ends-if IsStatus Anything (not (in_percents ratio)) _ _ tt (
            Ends-if IsStatus Anything (leb_ℤ cache_gb (pos 0) || leb_ℤ gb (pos 0)) _ _ tt
              (cached (slice_from 6 pv_name) _))))
    where
      cached : (rest : Option String) (wish : String → Wish) → Typed (with_cache_name rest wish)
      cached none wish = tt
      cached (some rest) wish = tt

  tested-Typed : (r : Result String) → Typed (tested s r)
  tested-Typed (err e) = reason-IsStatus _ _ e
  tested-Typed (ok node) = Ends-if IsStatus Anything (node == "") _ _ tt tt

  tolerated-Typed : (r : Result Device) → Typed (tolerated r)
  tolerated-Typed (ok device) = tt
  tolerated-Typed (err panic) = as_returned-Ends (err panic)
  tolerated-Typed (err (plain e)) = as_returned-Ends (err (plain e))
  tolerated-Typed (err (status code_ok m)) = as_returned-Ends (err (status code_ok m))
  tolerated-Typed (err (status aborted m)) = as_returned-Ends (err (status aborted m))
  tolerated-Typed (err (status already_exists m)) = tt
  tolerated-Typed (err (status failed_precondition m)) =
      as_returned-Ends (err (status failed_precondition m))
  tolerated-Typed (err (status internal m)) = as_returned-Ends (err (status internal m))
  tolerated-Typed (err (status invalid_argument m)) =
      as_returned-Ends (err (status invalid_argument m))
  tolerated-Typed (err (status not_found_code m)) = as_returned-Ends (err (status not_found_code m))
  tolerated-Typed (err (status resource_exhausted m)) =
      as_returned-Ends (err (status resource_exhausted m))

  create_both-Typed :
      (r : CreateVolumeRequest) (wish : Wish) (node : String) → TypedOp (create_both s r wish node)
  unfolding create_both
  create_both-Typed r wish node =
      TypedOp-after _ _ (make-Typed tolerated _ tolerated-Typed) (λ backend.
        TypedOp-after _ _
          (EndsIn-read IsStatus Anything
            (λ t. looked_up s backend.0 (get_by_volume_id s.client backend.0 t.1))
            (λ t. looked_up-Typed s backend.0 _))
          (λ lv.
            TypedOp-after _ _ (make-Typed as_returned _ as_returned-Ends)
              (λ cache. EndsIn-give IsStatus Anything (ok _) tt)))

  create_bcache_volume-Typed :
      (r : CreateVolumeRequest) (node : String) (gb : ℤ)
      → TypedOp (create_bcache_volume s r node gb)
  unfolding create_bcache_volume test_nodes
  create_bcache_volume-Typed r node gb =
      TypedOp-after _ _
        (EndsIn-give IsStatus Anything _
          (Ends-if IsStatus Anything (r.name == "") _ _ tt (wish_of-Typed r _ gb)))
        (λ wish.
          TypedOp-after _ _
            (EndsIn-read IsStatus Anything _ (λ t.
              Ends-if IsStatus Anything (node == "") _ _
                (tested-Typed (
                  select_multi_volume_node s.selectors s.strategy (s.cluster t.1) wish.backend_group
                    wish.cache_group wish.backend_gb wish.cache_gb r.accessibility_requirements))
                tt))
            (λ done. create_both-Typed r wish node))

  scheduled_node-Typed : (r : CreateVolumeRequest) (w : W) → Typed (scheduled_node s r w)
  unfolding scheduled_node
  scheduled_node-Typed r w = Ends-fails_with (instead internal _) _ (instead-IsStatus internal _)

  fail_if-Typed : (b : Bool) (c : Code) (m : String) → Typed (fail_if b (status c m))
  fail_if-Typed true c m = tt
  fail_if-Typed false c m = tt

  by_kind-Typed :
      (r : CreateVolumeRequest) (wanted : Wanted) (pv_name node : String)
      → TypedOp (by_kind s r wanted pv_name node)
  by_kind-Typed r wanted pv_name node =
      let ratio = text_at volume_cache_disk_ratio (parameters r) in
      EndsIn-if IsStatus Anything (not (ratio == "") && not (ratio == "0")) _ _
        (create_bcache_volume-Typed r node wanted.request_gb)
        (create_single-Typed r wanted pv_name _ node)

  create_body-Typed :
      (r : CreateVolumeRequest) (pv_name group : String) → TypedOp (create_body s r pv_name group)
  unfolding create_body
  create_body-Typed r pv_name group =
      TypedOp-after _ _ (EndsIn-give IsStatus Anything _ (check_capabilities-Typed _)) (λ done.
        TypedOp-after _ _
          (EndsIn-give IsStatus Anything _ (request_size-Typed r.required_bytes r.limit_bytes))
          (λ gb.
            TypedOp-after _ _ (EndsIn-read IsStatus Anything _ (λ t. scheduled_node-Typed r t.1))
              (λ node.
                TypedOp-after _ _
                  (EndsIn-give IsStatus Anything _ (
                    fail_if-Typed (host_unplaced s group node) failed_precondition
                      "can not support host not select node"))
                  (λ done. by_kind-Typed r (wanted_of s r group gb) pv_name node))))

  module _ {S : Type 0} (sets : StringSet S) where
    if_empty-Typed :
        (capabilities : List VolumeCapability) (x y : Result Volume × Controller S W)
        → Typed x.0
        → Typed y.0
        → Typed (if_empty capabilities x y).0
    if_empty-Typed [] x y hx hy = hx
    if_empty-Typed (_ ∷ _) x y hx hy = hy

    -- An error that CreateVolume returns is a status, whatever its clients return: it is never a
    -- plain error.
    pub create_volume-Typed :
        (r : CreateVolumeRequest) (c : Controller S W)
        → Ends IsStatus Anything (create_volume s sets r c).0
    unfolding create_volume
    create_volume-Typed r c = if-Typed s (r.name == "") _ _ tt (
        if-Typed s r.content_source _ _ tt (
          if_empty-Typed r.volume_capabilities _ _ tt (
            guarded_result sets (to_lower r.name) Typed (err _) _ c.0 c.1 tt
              ((create_body-Typed r (to_lower r.name) _).ends c.1))))
