-- ===== src/Csi/Statuses.antt =====
-- The errors of the controller's calls: a client of a gRPC service reads their codes. Here is what
-- the two calls share.
pub mod Creating
pub mod Expanding
use carina.Base.{
  String, ℤ, pos, ltb_ℤ, sub64, shr30, quot, mul64, leb_ℤ, shl30, slice_from, parse_int64, ◌≡◌,
  refl, Bool, true, false, Option, none, some, List, [], ◌∷◌, Map, text_at, to_lower, ◌==◌, ◌&&◌,
  ◌||◌, not, if◌then◌else◌,
}
use carina.Errors
use carina.Errors.{
  Error, plain, status, panic, Code, code_ok, aborted, already_exists, failed_precondition,
  not_found as not_found_code, resource_exhausted, Result, ok, err, fail_if, invalid_argument,
  internal,
}
use carina.Api.{LogicVolume}
use carina.Config.{get_device_group, check_host_device_group}
use carina.Locks.{StringSet}
use carina.Locks.Scope.{guarded, guarded_result}
use carina.Placement.{Found, found, not_found, failed}
use carina.Placement.Candidates.{Wanted}
use carina.Placement.Select.{select_device_group, select_node, select_multi_volume_node}
use carina.Service.{Timed}
use carina.Service.Expand.{update_spec_size, update_current_size}
use carina.Service.Getter.{get_by_volume_id}
use carina.Service.Create.{Device, Request}
use carina.Volume.{Op, ◌>>=◌, ◌>>◌, read, give}
use carina.Csi.{
  CreateVolumeRequest, VolumeCapability, AccessType, AccessMode, block, mount, unknown, unset,
  single_node_writer, other_mode, Volume, Services, Controller, if_empty, fails_with, parameters,
  internal_error, as_returned,
}
use carina.Csi.Request.{
  reason, instead, request_size, check_capabilities, access_type_known, access_mode_supported,
  device_disk_key, volume_cache_disk_ratio,
}
use carina.Csi.Bcache.{
  make, create_bcache_volume, wish_of, test_nodes, create_both, looked_up, tolerated, tested,
  precondition, with_cache_name, invalid, Wish, in_percents, value, backend_key, cache_key,
  policy_key,
}
use carina.Csi.Create.{
  create_volume, create_body, create_single, place, by_kind, chosen, checked, grouped, response,
  with_context, host_unplaced, wanted_of, busy, scheduled_node,
}
use carina.Csi.Expand.{
  ExpandVolumeRequest, Expansion, controller_expand_volume, expand_body, expand_host, expand_device,
  filled, grown, expansion, fill_current_size, internally, grow, enough, expandable, shared_disk,
  expand_busy,
}
use carina.Csi.Queries.{delete_volume}
use carina.Csi.Ends.{
  IsStatus, Anything, Ends, EndsIn, EndsIn-after, EndsIn-give, EndsIn-read, EndsIn-if, Ends-if,
  Ends-fails_with, as_status-IsStatus, internal_error-IsStatus, as_returned-Ends,
}

abbrev pub Typed : {A : Type 0} → Result A → Type 0
Typed = Ends IsStatus Anything

abbrev pub TypedOp : {W A : Type 0} → Op W A → Type 0
TypedOp = EndsIn IsStatus Anything

pub TypedOp-after :
    {W A B : Type 0} (op : Op W A) (next : A → Op W B)
    → TypedOp op
    → ((a : A) → TypedOp (next a))
    → TypedOp (op >>= next)
TypedOp-after op next first later =
    EndsIn-after IsStatus Anything Anything op next first (λ a any. later a)

pub reason-IsStatus : (code : Code) (text : String) (e : Error) → IsStatus (reason code text e)
unfolding reason
reason-IsStatus code text panic = tt
reason-IsStatus code text (plain e) = tt
reason-IsStatus code text (status c e) = tt

pub instead-IsStatus : (code : Code) (text : String) (e : Error) → IsStatus (instead code text e)
unfolding instead
instead-IsStatus code text panic = tt
instead-IsStatus code text (plain e) = tt
instead-IsStatus code text (status c e) = tt

pub fails-Typed :
    {A : Type 0} (code : Code) (text : String) (r : Result A)
    → Typed (fails_with (reason code text) r)
fails-Typed code text r = Ends-fails_with (reason code text) r (reason-IsStatus code text)

pub internal-Typed : {A : Type 0} (r : Result A) → Typed (fails_with internal_error r)
internal-Typed r = Ends-fails_with internal_error r internal_error-IsStatus

pub request_size-Typed : (bytes limit : ℤ) → Typed (request_size bytes limit)
unfolding request_size
request_size-Typed bytes limit = fails-Typed invalid_argument "" _

module _ {W : Type 0} (s : Services W) where
  pub looked_up-Typed : (id : String) (f : Found LogicVolume) → Typed (looked_up s id f)
  unfolding looked_up
  looked_up-Typed id (found lv) = tt
  looked_up-Typed id (failed e) = internal_error-IsStatus e
  looked_up-Typed id (not_found e) = tt

  pub if-Typed :
      {S A : Type 0} (b : Bool) (x y : Result A × Controller S W)
      → Typed x.0
      → Typed y.0
      → Typed (if b then x else y).0
  if-Typed true x y hx hy = hx
  if-Typed false x y hx hy = hy
