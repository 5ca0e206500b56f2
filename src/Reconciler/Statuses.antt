-- ===== src/Reconciler/Statuses.antt =====
-- What logicvolume_controller.go writes into the status of a logic volume.
use carina.Base.{String, ℕ, ℤ, Bool, true, false, some, ◌==◌, if◌then◌else◌}
use carina.Errors.{Code, code_ok, resource_exhausted, Error, message}
use carina.Api.{LogicVolume, LogicVolumeStatus}
use carina.Volume.Volumes.{resource_exhausted_text}

-- `lv.Status.Code == codes.OK`
unfoldable pub is_code_ok : Code → Bool
is_code_ok code_ok = true
is_code_ok _ = false

abbrev pub with_status : LogicVolume → LogicVolumeStatus → LogicVolume
with_status lv st = record {
  name = lv.name;
  annotations = lv.annotations;
  finalizers = lv.finalizers;
  owner = lv.owner;
  deleting = lv.deleting;
  spec = lv.spec;
  status = st;
}

-- The code of a failure: ResourceExhausted, or what the code was set to before that test
unfoldable pub failure_code : Code → Error → Code
failure_code otherwise e =
    if message e == resource_exhausted_text then resource_exhausted else otherwise

unfoldable pub failed_status : Code → Error → LogicVolumeStatus → LogicVolumeStatus
unfolding failure_code
failed_status otherwise e st = record {
  volume_id = st.volume_id;
  code = failure_code otherwise e;
  message = message e;
  current_size = st.current_size;
  status = "Failed";
  device_major = st.device_major;
  device_minor = st.device_minor;
}

unfoldable pub created_status : (volume_id : String) → ℤ → (major minor : ℕ) → LogicVolumeStatus
created_status volume_id size major minor = record {
  volume_id = volume_id;
  code = code_ok;
  message = "";
  current_size = some size;
  status = "Success";
  device_major = major;
  device_minor = minor;
}

unfoldable pub expanded_status : ℤ → LogicVolumeStatus → LogicVolumeStatus
expanded_status size st = record {
  volume_id = st.volume_id;
  code = code_ok;
  message = "";
  current_size = some size;
  status = "Success";
  device_major = st.device_major;
  device_minor = st.device_minor;
}
