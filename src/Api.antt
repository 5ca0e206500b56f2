-- ===== src/Api.antt =====
-- The custom resources: api/v1/logicvolume_types.go, api/v1beta1/nodestorageresource_types.go and
-- the node's view of its groups and disks, api/api.go. The scheduler has the same types from
-- github.com/carina-io/carina-api. A Kubernetes quantity is its `Value()`, an int64; a nil map is
-- the empty one, since the program reads both alike.
use carina.Base.{String, ℕ, ℤ, Bool, Option, List, Map, ◌&&◌, leb_ℤ, ◌==◌}
use carina.Errors.{Code}

pub record LogicVolumeSpec : Type 0 where
  pub node_name : String
  pub size : ℤ
  pub device_group : String
  pub pvc : String
  pub name_space : String

pub record LogicVolumeStatus : Type 0 where
  pub volume_id : String
  pub code : Code
  pub message : String
  pub current_size : Option ℤ
  pub status : String
  pub device_major : ℕ
  pub device_minor : ℕ

-- `deleting` says whether the deletion timestamp is set.
pub record LogicVolume : Type 0 where
  pub name : String
  pub annotations : Map String
  pub finalizers : List String
  pub owner : String
  pub deleting : Bool
  pub spec : LogicVolumeSpec
  pub status : LogicVolumeStatus

-- IsCompatibleWith
unfoldable pub is_compatible_with : LogicVolume → LogicVolume → Bool
is_compatible_with lv lv2 =
    lv.name == lv2.name && (leb_ℤ lv.spec.size lv2.spec.size && leb_ℤ lv2.spec.size lv.spec.size)

pub record PvInfo : Type 0 where
  pub pv_name : String
  pub vg_name : String
  pub pv_fmt : String
  pub pv_attr : String
  pub pv_size : ℕ
  pub pv_free : ℕ

pub record VgGroup : Type 0 where
  pub vg_name : String
  pub pv_count : ℕ
  pub lv_count : ℕ
  pub vg_attr : String
  pub vg_size : ℕ
  pub vg_free : ℕ
  pub pvs : List PvInfo

-- The fields of a disk that the program reads: its name and its partitions, by their keys.
pub record Disk : Type 0 where
  pub name : String
  pub partitions : List String

pub record NodeStorageResource : Type 0 where
  pub name : String
  pub capacity : Map ℤ
  pub allocatable : Map ℤ
  pub vg_groups : List VgGroup
  pub disks : List Disk
