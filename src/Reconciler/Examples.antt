-- ===== src/Reconciler/Examples.antt =====
-- A node whose world is the stored logic volume, and on which every partition command fails.
use carina.Base.{
  run, ℕ, suc, pos, ◌≡◌, ◌≢◌, ◌↔◌, refl, subst, false, none, [], ◌∷◌, In, inl, ltb, text_at, arith,
  eq_iff, if◌then◌else◌,
}
use carina.Errors.{code_ok, internal, Error, plain, message, ok, err}
use carina.Api.{LogicVolume, LogicVolumeStatus}
use carina.Placement.{found}
use carina.Volume.{Op, give}
use carina.Reconciler.{
  partition_name, to_uint64, Env, slice_remove_string, volume_manager_type, logic_volume_finalizer,
}
use carina.Reconciler.Statuses.{with_status, failed_status, failure_code}
use carina.Reconciler.Steps.{report, create_lv, create_raw, reconcile_found, reconcile}
use carina.Reconciler.Retry.{caught, until_max_retry}
use carina.Reconciler.Retry.Runs.{LastRun, until_max_retry-LastRun}
use carina.Reconciler.Keeps.{IsConsistent, Keeps, Surroundings}
use carina.Reconciler.Keeps.Reconciling.{reconcile-Keeps}
use carina.Reconciler.Effects.{
  IsSettled, settled_idle, raw_failure_retried, slice_remove_string_lem,
}

abbrev write : LogicVolume → Op LogicVolume (Unit {0})
write lv = λ w. (ok tt, lv)

abbrev no_disk : Error
no_disk = plain "no disk"

abbrev env : Env LogicVolume
env = record {
  get = λ w. found w;
  update_status = write;
  patch = write;
  sync_notice_update_capacity = give (ok tt);
  create_volume = λ lv group size ratio. give (ok tt);
  resize_volume = λ lv group size ratio. give (ok tt);
  delete_volume = λ lv group. give (ok tt);
  volume_info = λ lv group w. err no_disk;
  create_partition = λ name group size. give (err no_disk);
  update_partition = λ name group size. give (err no_disk);
  delete_partition = λ name group. give (err no_disk);
  scan_disk = λ group w. err no_disk;
  create_host_volume = λ lv group. give (ok tt);
  delete_host_volume = λ lv group. give (ok tt);
}

stored_one : (w lv : LogicVolume) → found w ≡ found lv → IsConsistent w → IsConsistent lv
stored_one w lv same c = subst IsConsistent injective c
  where
    injective : w ≡ lv
    injective = cc

around : Surroundings env IsConsistent
around = record {
  stored = stored_one;
  update_status = λ lv c. record { kept = λ w q. c };
  patch = λ lv c. record { kept = λ w q. c };
  sync_notice = record { kept = λ w q. q };
  create_volume = λ lv group size ratio. record { kept = λ w q. q };
  resize_volume = λ lv group size ratio. record { kept = λ w q. q };
  delete_volume = λ lv group. record { kept = λ w q. q };
  create_partition = λ name group size. record { kept = λ w q. q };
  update_partition = λ name group size. record { kept = λ w q. q };
  delete_partition = λ name group. record { kept = λ w q. q };
  create_host_volume = λ lv group. record { kept = λ w q. q };
  delete_host_volume = λ lv group. record { kept = λ w q. q };
}

reconcile-Keeps_example : Keeps IsConsistent (reconcile env)
reconcile-Keeps_example = reconcile-Keeps env IsConsistent around

abbrev fresh : LogicVolumeStatus
fresh = record {
  volume_id = "";
  code = code_ok;
  message = "";
  current_size = none;
  status = "";
  device_major = 0;
  device_minor = 0;
}

abbrev raw_volume : LogicVolume
raw_volume = record {
  name = "pvc-1";
  annotations = ("carina.io/volume-manage-type", "raw") ∷ [];
  finalizers = "carina.storage.io/logicvolume" ∷ [];
  owner = "";
  deleting = false;
  spec = record {
    node_name = "a";
    size = pos 10;
    device_group = "carina-raw-ssd/loop1";
    pvc = "data";
    name_space = "default";
  };
  status = fresh;
}

-- The failure is in the status, and the code is still OK.
failure_recorded :
    reconcile_found env raw_volume raw_volume
    ≡ (ok tt, with_status raw_volume (failed_status code_ok no_disk fresh))
unfolding reconcile_found create_lv create_raw failed_status caught until_max_retry run
failure_recorded = refl

raw_failed :
    until_max_retry
      (env.create_partition
        (partition_name raw_volume.name)
        raw_volume.spec.device_group
        (to_uint64 raw_volume.spec.size))
      3
      raw_volume
    ≡ (err no_disk, raw_volume)
unfolding until_max_retry caught
raw_failed = refl

raw_failure_retried_example :
    (recorded : LogicVolumeStatus) × (create_raw env raw_volume raw_volume
      ≡ report env (with_status raw_volume recorded) raw_volume)
    × (reconcile_found env (with_status raw_volume recorded)
        ≡ create_raw env (with_status raw_volume recorded))
raw_failure_retried_example =
    raw_failure_retried env raw_volume refl no_disk raw_volume raw_volume refl refl raw other_error
      (λ h. ground (arith, h)) raw_failed
  where
    raw : text_at volume_manager_type raw_volume.annotations ≡ "raw"
    raw = unfold run in refl

    other_error : message no_disk ≢ "don't have enough space"
    other_error =
        unfold message in λ h. ground (arith, h, eq_iff "no disk" "don't have enough space")

settled_idle_example :
    reconcile_found env (with_status raw_volume (failed_status internal no_disk fresh)) raw_volume
    ≡ (ok tt, raw_volume)
settled_idle_example =
    settled_idle env (with_status raw_volume (failed_status internal no_disk fresh)) refl settled
      raw_volume
  where
    settled : IsSettled (with_status raw_volume (failed_status internal no_disk fresh))
    settled = unfold failed_status failure_code message in inl (refl, λ h. ground (arith, h))

abbrev third_time : Op ℕ (Unit {0})
third_time w = if ltb w 2 then (err no_disk, suc w) else (ok tt, w)

until_max_retry-LastRun_example : LastRun third_time 2 0 (until_max_retry third_time 3 0)
until_max_retry-LastRun_example = until_max_retry-LastRun third_time 2 0

slice_remove_string_run :
    In "other" (slice_remove_string (logic_volume_finalizer ∷ "other" ∷ []) logic_volume_finalizer)
    ↔ In "other" (logic_volume_finalizer ∷ "other" ∷ []) × ("other" ≢ logic_volume_finalizer)
slice_remove_string_run =
    slice_remove_string_lem (logic_volume_finalizer ∷ "other" ∷ []) logic_volume_finalizer "other"
