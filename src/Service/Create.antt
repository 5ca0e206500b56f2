-- ===== src/Service/Create.antt =====
-- CreateVolume of logicvolume_service.go.
pub mod Creates
use carina.Base.{
  String, ℕ, ℤ, Bool, true, false, Option, none, some, List, [], ◌∷◌, Map, shl30, ◌==◌,
  if◌then◌else◌,
}
use carina.Errors.{Error, Code, code_ok, already_exists, plain, status, Result, ok, err}
use carina.Api.{LogicVolume, is_compatible_with}
use carina.Placement.{Found, found, not_found, failed}
use carina.Volume.{Op, give, ◌>>◌}
use carina.Reconciler.{logic_volume_finalizer}
use carina.Reconciler.Statuses.{is_code_ok}
use carina.Service.{Client, Timed, get_lv}
use carina.Service.Poll.{Verdict, again, stop, poll}

-- The arguments of CreateVolume; of the owner, its name.
pub record Request : Type 0 where
  pub name_space : String
  pub pvc : String
  pub node : String
  pub device_group : String
  pub pv_name : String
  pub request_gb : ℤ
  pub owner : String
  pub annotations : Map String

-- Volume id, device major and minor
abbrev pub Device : Type 0
Device = String × (ℕ × ℕ)

unfoldable pub new_lv : Request → LogicVolume
new_lv r = record {
  name = r.pv_name;
  annotations = r.annotations;
  finalizers = logic_volume_finalizer ∷ [];
  owner = r.owner;
  deleting = false;
  spec = record {
    node_name = r.node;
    size = shl30 r.request_gb;
    device_group = r.device_group;
    pvc = r.pvc;
    name_space = r.name_space;
  };
  status = record {
    volume_id = "";
    code = code_ok;
    message = "";
    current_size = none;
    status = "";
    device_major = 0;
    device_minor = 0;
  };
}

module _ {W : Type 0} (client : Client W) where
  -- `err := s.getter.Get(...)` and what follows before the loop
  unfoldable pub admit : LogicVolume → Found LogicVolume → Op W (Unit {0})
  unfolding is_compatible_with
  admit lv (failed e) w = (err e, w)
  admit lv (not_found e) w = client.create lv w
  admit lv (found existing) w =
      if is_compatible_with existing lv
      then (ok tt, w)
      else (err (status already_exists "Incompatible LogicVolume already exists"), w)

  -- A failed creation is deleted; an error of the deletion is only logged.
  abbrev pub give_up : LogicVolume → W → Verdict Device × W
  give_up lv w = (stop (err (status lv.status.code lv.status.message)), (client.delete lv w).1)

  unfoldable pub judge_created : Found LogicVolume → W → Verdict Device × W
  unfolding is_code_ok
  judge_created (not_found e) w = (stop (err e), w)
  judge_created (failed e) w = (stop (err e), w)
  judge_created (found lv) w =
      if lv.status.volume_id == ""
      then if is_code_ok lv.status.code then (again, w) else give_up lv w
      else (stop (ok (lv.status.volume_id, (lv.status.device_major, lv.status.device_minor))), w)

  unfoldable pub wait_created : String → ℕ → W → Result Device × Timed W
  unfolding judge_created poll
  wait_created pv_name = poll client.pass (λ w. judge_created (get_lv client pv_name w) w)

  abbrev pub admitted :
      (W → Result Device × Timed W) → ℕ → Result (Unit {0}) × W → Result Device × Timed W
  admitted wait left (err e, w) = (err e, (left, w))
  admitted wait left (ok done, w) = wait w

  unfoldable pub create_volume : Request → Timed W → Result Device × Timed W
  unfolding admit wait_created new_lv
  create_volume r (left, w) =
      admitted (wait_created r.pv_name left) left (admit (new_lv r) (get_lv client r.pv_name w) w)
