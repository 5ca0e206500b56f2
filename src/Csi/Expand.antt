-- ===== src/Csi/Expand.antt =====
-- ControllerExpandVolume of controller.go.
pub mod Grown
use carina.Base.{
  String, ℕ, ℤ, pos, Bool, true, false, ◌&&◌, not, Option, none, some, List, [], ◌∷◌, Map, text_at,
  shl30, shr30, sub64, mul64, quot, ltb_ℤ, leb_ℤ, slice_from, parse_int64_value, ◌<>◌, ◌==◌,
  if◌then◌else◌,
}
use carina.Errors.{
  Error, plain, status, panic, Code, not_found as not_found_code, aborted, internal,
  invalid_argument, Result, ok, err,
}
use carina.Api.{LogicVolume}
use carina.Config.{check_host_device_group}
use carina.Locks.{StringSet}
use carina.Locks.Scope.{guarded}
use carina.Placement.{exclusivity_disk}
use carina.Placement.Capacity.{get_capacity_by_node_name}
use carina.Reconciler.{volume_manager_type}
use carina.Service.{Timed}
use carina.Service.Getter.{get_by_volume_id}
use carina.Service.Expand.{update_spec_size, update_current_size}
use carina.Service.Expand as service
use carina.Volume.{Op, ◌>>=◌, ◌>>◌, read, give}
use carina.Csi.{Services, Controller, fails_with, internal_error, as_returned}
use carina.Csi.Request.{volume_cache_disk_ratio, request_size}
use carina.Csi.Bcache.{invalid, looked_up}

pub record ExpandVolumeRequest : Type 0 where
  pub volume_id : String
  pub required_bytes : ℤ
  pub limit_bytes : ℤ

-- What the goroutine that expands the cache volume is started with
pub record CacheJob : Type 0 where
  pub ratio : String
  pub lv_name : String
  pub request_gb : ℤ

-- The response, and the goroutine that is started; NodeExpansionRequired is always true.
pub record Expansion : Type 0 where
  pub capacity_bytes : ℤ
  pub job : Option CacheJob

abbrev pub expansion : ℤ → Option CacheJob → Expansion
expansion gb job = record { capacity_bytes = shl30 gb; job = job }

module _ {W : Type 0} (s : Services W) where
  -- `currentSize`, which is filled in for an old volume
  abbrev pub filled : ℤ → Result (Unit {0}) → Result ℤ
  filled size (err e) = err (internal_error e)
  filled size (ok done) = ok size

  unfoldable pub fill_current_size : String → ℤ → Option ℤ → Op (Timed W) ℤ
  fill_current_size volume_id size (some current) t = (ok current, t)
  fill_current_size volume_id size none t =
      let updated = update_current_size s.client volume_id size t in
      (filled size updated.0, updated.1)

  unfoldable pub internally : Op (Timed W) (Unit {0}) → Op (Timed W) (Unit {0})
  internally op t = let done = op t in (fails_with internal_error done.0, done.1)

  -- A directory grows by writing its size down; the answer has the size that it had.
  unfoldable pub expand_host : String → (request_gb current_gb : ℤ) → Op (Timed W) Expansion
  unfolding internally
  expand_host volume_id request_gb current_gb = do
    internally (update_spec_size s.client volume_id (shl30 request_gb))
    internally (update_current_size s.client volume_id (shl30 request_gb))
    give (ok (expansion current_gb none))

  abbrev pub job_of : LogicVolume → ℤ → Option CacheJob
  job_of lv request_gb =
      if text_at volume_cache_disk_ratio lv.annotations == ""
      then none
      else some (record {
        ratio = text_at volume_cache_disk_ratio lv.annotations;
        lv_name = lv.name;
        request_gb = request_gb;
      })

  abbrev pub enough : (request_gb current_gb capacity : ℤ) → Result (Unit {0})
  enough request_gb current_gb capacity =
      if ltb_ℤ capacity (sub64 request_gb current_gb)
      then err (status internal "not enough space")
      else ok tt

  unfoldable pub grown : String → ℤ → Op (Timed W) (Unit {0})
  grown volume_id request_gb t =
      let done = service.expand_volume s.client volume_id request_gb t in
      (as_returned done.0, done.1)

  unfoldable pub expand_device :
      String → LogicVolume → (request_gb current_gb : ℤ) → Op (Timed W) Expansion
  unfolding grown
  expand_device volume_id lv request_gb current_gb = do
    capacity ← read (λ t.
        fails_with internal_error
          (get_capacity_by_node_name (s.cluster t.1) lv.spec.node_name lv.spec.device_group))
    give (enough request_gb current_gb capacity)
    grown volume_id request_gb
    give (ok (expansion request_gb (job_of lv request_gb)))

  abbrev pub grow : String → LogicVolume → (request_gb current_gb : ℤ) → Op (Timed W) Expansion
  grow volume_id lv request_gb current_gb =
      if leb_ℤ request_gb current_gb
      then give (ok (expansion current_gb none))
      else if check_host_device_group s.selectors lv.spec.device_group
      then expand_host volume_id request_gb current_gb
      else expand_device volume_id lv request_gb current_gb

  -- `lv.Annotations[...] == "raw" && lv.Annotations[...] == "false"`
  abbrev pub shared_disk : LogicVolume → Bool
  shared_disk lv =
      text_at volume_manager_type lv.annotations == "raw"
      && text_at exclusivity_disk lv.annotations == "false"

  abbrev pub expandable : LogicVolume → Result (Unit {0})
  expandable lv =
      if shared_disk lv then err (status internal "can not expand no exclusivity disk") else ok tt

  unfoldable pub expand_body : ExpandVolumeRequest → Op (Timed W) Expansion
  unfolding expand_host expand_device fill_current_size
  expand_body r = do
    lv ← read (λ t. looked_up s r.volume_id (get_by_volume_id s.client r.volume_id t.1))
    give (expandable lv)
    request_gb ← give (request_size r.required_bytes r.limit_bytes)
    current_size ← fill_current_size r.volume_id lv.spec.size lv.status.current_size
    grow r.volume_id lv request_gb (shr30 current_size)

  abbrev pub expand_busy : String → Error
  expand_busy volume_id =
      status aborted ("an operation with the given Volume ID " <> (volume_id <> " already exists"))

  unfoldable pub controller_expand_volume :
      {S : Type 0}
      → StringSet S
      → ExpandVolumeRequest
      → Controller S W
      → Result Expansion × Controller S W
  unfolding expand_body
  controller_expand_volume sets r c =
      if r.volume_id == ""
      then (invalid "volume id is nil", c)
      else guarded sets r.volume_id (err (expand_busy r.volume_id)) (expand_body r) c

  -- The goroutine: a wrong ratio is only logged, and used; a name of less than six bytes panics.
  abbrev pub cache_volume_id : Option String → Result String
  cache_volume_id none = err panic
  cache_volume_id (some rest) = ok ("volume-cache-" <> rest)

  unfoldable pub expand_cache : CacheJob → Op (Timed W) (Unit {0})
  expand_cache job = do
    name ← give (cache_volume_id (slice_from 6 job.lv_name))
    service.expand_volume s.client name
        (quot (mul64 job.request_gb (parse_int64_value job.ratio)) 100)
