-- ===== src/Csi/Queries.antt =====
-- DeleteVolume, ValidateVolumeCapabilities, GetCapacity and ControllerGetCapabilities of
-- controller.go, which take no lock.
use carina.Base.{String, ℤ, ◌&&◌, Option, List, [], ◌∷◌, Map, text_at, ◌==◌, if◌then◌else◌}
use carina.Errors.{Result, ok, err}
use carina.Api.{LogicVolume}
use carina.Config.{get_device_group, check_raw_device_group}
use carina.Placement.{exclusivity_disk}
use carina.Placement.Capacity.{get_total_capacity}
use carina.Service.{Timed}
use carina.Service.Getter.{get_by_volume_id}
use carina.Service.Delete as service
use carina.Csi.{Services, VolumeCapability, if_empty, fails_with, internal_error, as_returned}
use carina.Csi.Request.{device_disk_key}
use carina.Csi.Bcache.{invalid, looked_up}

-- The response gives the request's three fields back.
pub record ValidateRequest : Type 0 where
  pub volume_id : String
  pub volume_context : Map String
  pub volume_capabilities : List VolumeCapability
  pub parameters : Map String

pub data Capability : Type 0 where
  create_delete_volume get_capacity_rpc expand_volume_rpc : Capability

unfoldable pub controller_get_capabilities : List Capability
controller_get_capabilities = create_delete_volume ∷ get_capacity_rpc ∷ expand_volume_rpc ∷ []

abbrev confirmed : ValidateRequest → Result LogicVolume → Result ValidateRequest
confirmed r (err e) = err e
confirmed r (ok lv) = ok r

module _ {W : Type 0} (s : Services W) where
  unfoldable pub delete_volume : (volume_id : String) → Timed W → Result (Unit {0}) × Timed W
  delete_volume volume_id t =
      if volume_id == ""
      then (invalid "volume_id is not provided", t)
      else let deleted = service.delete_volume s.client volume_id t in
        (as_returned deleted.0, deleted.1)

  unfoldable pub validate_volume_capabilities : ValidateRequest → W → Result ValidateRequest
  validate_volume_capabilities r w =
      if r.volume_id == ""
      then invalid "volume id is nil"
      else if_empty r.volume_capabilities (invalid "volume capabilities are empty")
          (confirmed r (looked_up s r.volume_id (get_by_volume_id s.client r.volume_id w)))

  -- The node service is given the whole group, and reads its kind from it again.
  unfoldable pub get_capacity :
      (parameters : Map String) → (topology : Option (Map String)) → W → Result ℤ
  get_capacity given topology w =
      let group = get_device_group s.selectors (text_at device_disk_key given) in
      fails_with internal_error (
        get_total_capacity s.selectors (s.cluster w) group topology
          (check_raw_device_group s.selectors group && text_at exclusivity_disk given == "true"))
