-- ===== src/Reconciler/Steps.antt =====
-- createLV, expandLV, removeLVIfExists and Reconcile of controllers/logicvolume_controller.go.
use carina.Base.{
  String, ℤ, Bool, false, not, Option, none, some, Map, lookup, text_at, leb_ℤ, ◌<>◌, ◌==◌,
  if◌then◌else◌,
}
use carina.Errors.{internal, plain, Result, ok, err, message}
use carina.Api.{LogicVolume}
use carina.Config.{contains_string}
use carina.Volume.{Op, ◌>>◌, give, LvInfo}
use carina.Volume.Volumes.{volume_prefix}
use carina.Placement.{Found, found, not_found, failed}
use carina.Reconciler.{
  Env, to_uint64, parse_uint32, slice_remove_string, partition_name, volume_manager_type,
  exclusivity_disk, logic_volume_finalizer,
}
use carina.Reconciler.Retry.{until_max_retry, caught}
use carina.Reconciler.Statuses.{
  is_code_ok, with_status, failed_status, created_status, expanded_status,
}

module _ {D : Type 0} (env : Env D) where
  -- The end of createLV and expandLV
  unfoldable pub report : LogicVolume → Op D (Unit {0})
  report lv = do env.sync_notice_update_capacity; env.update_status lv

  unfoldable pub created_lvm : LogicVolume → Result LvInfo → Op D (Unit {0})
  unfolding report
  created_lvm lv (ok lv_info) = report (
      with_status lv (
        created_status (volume_prefix <> lv.name) lv.spec.size lv_info.lv_kernel_major
          lv_info.lv_kernel_minor))
  created_lvm lv (err e) = report (
      with_status lv (
        created_status (volume_prefix <> lv.name) lv.spec.size lv.status.device_major
          lv.status.device_minor))

  unfoldable pub create_lvm : LogicVolume → Op D (Unit {0})
  unfolding created_lvm
  create_lvm lv =
      caught (λ e. report (with_status lv (failed_status internal e lv.status)))
        (λ w. created_lvm lv (env.volume_info (volume_prefix <> lv.name) lv.spec.device_group w) w)
        (until_max_retry (env.create_volume lv.name lv.spec.device_group (to_uint64 lv.spec.size) 1)
          3)

  -- A scan that fails ends createLV before the status is written.
  unfoldable pub created_raw : LogicVolume → Result (Map String) → Op D (Unit {0})
  unfolding report
  created_raw lv (err e) = give (
      err (
        plain (
          "lv: "
          <> (lv.name
              <> (",disk scan group: " <> (lv.spec.device_group <> (",err:" <> message e)))))))
  created_raw lv (ok properties) = report (
      with_status lv (
        created_status (volume_prefix <> lv.name) lv.spec.size
          (parse_uint32 (text_at "MAJOR" properties)) (parse_uint32 (text_at "MINOR" properties))))

  -- A failure leaves the code as it is, unless it is for lack of space.
  unfoldable pub create_raw : LogicVolume → Op D (Unit {0})
  unfolding created_raw
  create_raw lv =
      caught (λ e. report (with_status lv (failed_status lv.status.code e lv.status)))
        (λ w. created_raw lv (env.scan_disk lv.spec.device_group w) w)
        (until_max_retry
          (env.create_partition (partition_name lv.name) lv.spec.device_group
            (to_uint64 lv.spec.size))
          3)

  unfoldable pub create_host : LogicVolume → Op D (Unit {0})
  unfolding report
  create_host lv =
      caught (λ e. report (with_status lv (failed_status internal e lv.status)))
        (report (with_status lv (created_status ("host-" <> lv.name) lv.spec.size 0 0)))
        (until_max_retry (env.create_host_volume lv.name lv.spec.device_group) 3)

  unfoldable pub create_lv : LogicVolume → Op D (Unit {0})
  unfolding create_lvm create_raw create_host is_code_ok
  create_lv lv =
      let volume_type = text_at volume_manager_type lv.annotations in
      if not (is_code_ok lv.status.code)
      then give (ok tt)
      else if volume_type == "lvm"
      then create_lvm lv
      else if volume_type == "raw"
      then create_raw lv
      else if volume_type == "host"
      then create_host lv
      else give (ok tt)

  -- What expandLV does with the result of the manager
  unfoldable pub expanded : LogicVolume → Op D (Unit {0}) → Op D (Unit {0})
  unfolding report
  expanded lv resize =
      caught (λ e. report (with_status lv (failed_status lv.status.code e lv.status)))
        (report (with_status lv (expanded_status lv.spec.size lv.status)))
        (until_max_retry resize 3)

  -- Only a volume that has its disk to itself grows.
  unfoldable pub expand_raw : LogicVolume → Option String → Op D (Unit {0})
  unfolding expanded
  expand_raw lv none = give (
      err (
        plain (
          "Extend lv: "
          <> (lv.name <> " doesn't get  annotations: carina.storage.io/exclusively-raw-disk"))))
  expand_raw lv (some exclusive) =
      if exclusive == "false"
      then give (err (plain ("Extend lv: " <> (lv.name <> " doesn't using an exclusive disk"))))
      else expanded lv (
          env.update_partition (partition_name lv.name) lv.spec.device_group
            (to_uint64 lv.spec.size))

  unfoldable pub expand_to : LogicVolume → Option ℤ → Op D (Unit {0})
  unfolding expand_raw
  expand_to lv none = give (ok tt)
  expand_to lv (some current_size) =
      let volume_type = text_at volume_manager_type lv.annotations in
      if leb_ℤ lv.spec.size current_size
      then give (ok tt)
      else if volume_type == "lvm"
      then expanded lv (env.resize_volume lv.name lv.spec.device_group (to_uint64 lv.spec.size) 1)
      else if volume_type == "raw"
      then expand_raw lv (lookup exclusivity_disk lv.annotations)
      else give (ok tt)

  unfoldable pub expand_lv : LogicVolume → Op D (Unit {0})
  unfolding expand_to
  expand_lv lv = expand_to lv lv.status.current_size

  unfoldable pub without_finalizer : LogicVolume → LogicVolume
  unfolding slice_remove_string
  without_finalizer lv = record {
    name = lv.name;
    annotations = lv.annotations;
    finalizers = slice_remove_string lv.finalizers logic_volume_finalizer;
    owner = lv.owner;
    deleting = lv.deleting;
    spec = lv.spec;
    status = lv.status;
  }

  unfoldable pub removed : LogicVolume → Op D (Unit {0}) → Op D (Unit {0})
  unfolding without_finalizer
  removed lv delete = do
    until_max_retry delete 3
    env.sync_notice_update_capacity
    env.patch (without_finalizer lv)

  unfoldable pub remove_lv_if_exists : LogicVolume → Op D (Unit {0})
  unfolding removed
  remove_lv_if_exists lv =
      let volume_type = text_at volume_manager_type lv.annotations in
      if volume_type == "lvm"
      then removed lv (env.delete_volume lv.name lv.spec.device_group)
      else if volume_type == "raw"
      then removed lv (env.delete_partition (partition_name lv.name) lv.spec.device_group)
      else if volume_type == "host"
      then removed lv (env.delete_host_volume lv.name lv.spec.device_group)
      else give (ok tt)

  unfoldable pub reconcile_found : LogicVolume → Op D (Unit {0})
  reconcile_found lv =
      if not lv.deleting
      then if lv.status.volume_id == "" then create_lv lv else expand_lv lv
      else if not (contains_string lv.finalizers logic_volume_finalizer)
      then give (ok tt)
      else remove_lv_if_exists lv

  unfoldable pub reconcile_got : Found LogicVolume → Op D (Unit {0})
  unfolding reconcile_found
  reconcile_got (found lv) = reconcile_found lv
  reconcile_got (not_found e) = give (ok tt)
  reconcile_got (failed e) = give (err e)

  unfoldable pub reconcile : Op D (Unit {0})
  unfolding reconcile_got
  reconcile = λ w. reconcile_got (env.get w) w

-- logicVolumeFilter.filter
unfoldable pub filter : (node_name : String) → Option LogicVolume → Bool
filter node_name none = false
filter node_name (some lv) = lv.spec.node_name == node_name
