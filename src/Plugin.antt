-- ===== src/Plugin.antt =====
-- The scheduler plugin, scheduler/schedulerplugin/localstorage: it reads the claims of a pod, and
-- filters the nodes whose storage cannot hold them. What the plugin asks of Kubernetes (listers,
-- the API client, the conversion of objects) is the record `Cluster`.
pub mod Fit
pub mod Requests
pub mod Allocatable
pub mod Filter
pub mod Keys
pub mod Examples
use carina.Base.{String, ℤ, Bool, Option, List, Map}
use carina.Errors.{Result}
use carina.Api.{LogicVolume, NodeStorageResource}

pub record PersistentVolumeClaim : Type 0 where
  pub storage_class_name : Option String
  pub bound : Bool
  pub volume_name : String
  pub storage_request : ℤ

pub record StorageClass : Type 0 where
  pub name : String
  pub provisioner : String
  pub parameters : Map String

-- `csi` is none when the volume has no CSI source.
pub record PersistentVolume : Type 0 where
  pub csi : Option (Map String)

-- The volumes of a pod: the name of the claim, for those that have one.
pub record Pod : Type 0 where
  pub name : String
  pub namespace : String
  pub volumes : List (Option String)

-- An object of an informer's cache comes with the outcome of its conversion.
pub record Cluster : Type 0 where
  pub get_pvc : (namespace name : String) → Result PersistentVolumeClaim
  pub get_storage_class : String → Result StorageClass
  pub get_pv : String → Result PersistentVolume
  pub cached_lvs : Result (List (Result LogicVolume))
  pub api_lvs : Result (List LogicVolume)
  pub cached_nsr : String → Result (Result NodeStorageResource)
  pub api_nsr : String → Result NodeStorageResource
