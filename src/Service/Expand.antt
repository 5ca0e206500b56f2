-- ===== src/Service/Expand.antt =====
-- ExpandVolume, UpdateLogicVolumeSpecSize and UpdateLogicVolumeCurrentSize of
-- logicvolume_service.go.
pub mod Expands
use carina.Base.{
  String, ℕ, ℤ, Bool, true, false, ◌&&◌, Option, none, some, insert, shl30, leb_ℤ, if◌then◌else◌,
}
use carina.Errors.{Error, plain, status, Result, ok, err}
use carina.Api.{LogicVolume, LogicVolumeStatus}
use carina.Placement.{Found, found, not_found, failed}
use carina.Reconciler.Statuses.{is_code_ok, with_status}
use carina.Service.{Client, Timed, Written, written, conflict, refused, get_lv, get_node}
use carina.Service.Poll.{Verdict, again, stop, poll, watch}
use carina.Service.Getter.{get_by_volume_id}

abbrev pub resize_requested_at_key : String
resize_requested_at_key = "carina.storage.io/resize-requested-at"

unfoldable pub with_spec_size : ℤ → (now : String) → LogicVolume → LogicVolume
with_spec_size size now lv = record {
  name = lv.name;
  annotations = insert resize_requested_at_key now lv.annotations;
  finalizers = lv.finalizers;
  owner = lv.owner;
  deleting = lv.deleting;
  spec = record {
    node_name = lv.spec.node_name;
    size = size;
    device_group = lv.spec.device_group;
    pvc = lv.spec.pvc;
    name_space = lv.spec.name_space;
  };
  status = lv.status;
}

unfoldable pub with_current_size : ℤ → LogicVolume → LogicVolume
with_current_size size lv = with_status lv (record {
  volume_id = lv.status.volume_id;
  code = lv.status.code;
  message = lv.status.message;
  current_size = some size;
  status = lv.status.status;
  device_major = lv.status.device_major;
  device_minor = lv.status.device_minor;
})

abbrev pub same_size : ℤ → ℤ → Bool
same_size a b = leb_ℤ a b && leb_ℤ b a

-- The end of the body of an update: a conflict is tried again.
abbrev pub judge_written : {W : Type 0} → Written × W → Verdict (Unit {0}) × W
judge_written (written, w) = (stop (ok tt), w)
judge_written (conflict e, w) = (again, w)
judge_written (refused e, w) = (stop (err e), w)

abbrev pub rewrite :
    {W : Type 0} → (LogicVolume → W → Written × W) → Found LogicVolume → W → Verdict (Unit {0}) × W
rewrite write (not_found e) w = (stop (err e), w)
rewrite write (failed e) w = (stop (err e), w)
rewrite write (found lv) w = judge_written (write lv w)

-- The body of the loop in ExpandVolume
abbrev pub judge_size : LogicVolume → Option ℤ → Verdict (Unit {0})
judge_size lv none = stop (err (plain "status.currentSize should not be nil"))
judge_size lv (some current) =
    if same_size current lv.spec.size
    then if is_code_ok lv.status.code
      then stop (ok tt)
      else stop (err (status lv.status.code lv.status.message))
    else again

unfoldable pub judge_expanded : Found LogicVolume → Verdict (Unit {0})
unfolding is_code_ok
judge_expanded (not_found e) = stop (err e)
judge_expanded (failed e) = stop (err e)
judge_expanded (found lv) = judge_size lv lv.status.current_size

module _ {W : Type 0} (client : Client W) where
  unfoldable pub update_spec_size : String → ℤ → Timed W → Result (Unit {0}) × Timed W
  unfolding poll with_spec_size
  update_spec_size volume_id size (left, w) =
      poll client.pass
        (λ v.
          rewrite (λ lv u. client.update (with_spec_size size (client.now u) lv) u)
            (get_by_volume_id client volume_id v) v)
        left w

  unfoldable pub update_current_size : String → ℤ → Timed W → Result (Unit {0}) × Timed W
  unfolding poll with_current_size
  update_current_size volume_id size (left, w) =
      poll client.pass
        (λ v.
          rewrite (λ lv. client.update_status (with_current_size size lv))
            (get_by_volume_id client volume_id v) v)
        left w

  unfoldable pub wait_expanded : String → ℕ → W → Result (Unit {0}) × Timed W
  unfolding poll judge_expanded
  wait_expanded name = poll client.pass (watch (λ w. judge_expanded (get_lv client name w)))

  abbrev pub after_update : String → Result (Unit {0}) × Timed W → Result (Unit {0}) × Timed W
  after_update name (err e, t) = (err e, t)
  after_update name (ok done, (left, w)) = wait_expanded name left w

  -- The check of the node, the update, and the loop
  abbrev pub expand_on :
      String → String → ℤ → Result (Unit {0}) → Timed W → Result (Unit {0}) × Timed W
  expand_on volume_id name request_gb (err e) t = (err e, t)
  expand_on volume_id name request_gb (ok node) t =
      after_update name (update_spec_size volume_id (shl30 request_gb) t)

  unfoldable pub expand_found :
      String → ℤ → Found LogicVolume → Timed W → Result (Unit {0}) × Timed W
  unfolding update_spec_size wait_expanded
  expand_found volume_id request_gb (not_found e) t = (err e, t)
  expand_found volume_id request_gb (failed e) t = (err e, t)
  expand_found volume_id request_gb (found lv) t =
      expand_on volume_id lv.name request_gb (get_node client lv.spec.node_name t.1) t

  unfoldable pub expand_volume : String → ℤ → Timed W → Result (Unit {0}) × Timed W
  unfolding expand_found
  expand_volume volume_id request_gb (left, w) =
      expand_found volume_id request_gb (get_by_volume_id client volume_id w) (left, w)
