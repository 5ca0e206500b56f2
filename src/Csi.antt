-- ===== src/Csi.antt =====
-- The controller of the CSI driver: pkg/csidriver/driver/controller.go. A call works on the table of
-- locks, on the waits that its context allows and on the world of the logic volume service; the node
-- service reads that world through a `Cluster`.
pub mod Request
pub mod Create
pub mod Bcache
pub mod Expand
pub mod Queries
pub mod Ends
pub mod Statuses
pub mod Locking
pub mod Examples
use carina.Base.{String, ℕ, ℤ, Bool, Option, none, some, List, [], ◌∷◌, Map, text_at}
use carina.Errors.{
  Error, Code, internal, invalid_argument, status, message, as_status, Result, ok, err,
}
use carina.Config.{DiskSelectorItem}
use carina.Locks.{GlobalLocks}
use carina.Placement.{Cluster, TopologyRequirement}
use carina.Service.{Client, Timed}

-- csi.VolumeCapability: the access type and the access mode
pub data AccessType : Type 0 where
  block mount unknown : AccessType

pub data AccessMode : Type 0 where
  unset single_node_writer : AccessMode
  other_mode : String → AccessMode

pub record VolumeCapability : Type 0 where
  pub access_type : AccessType
  pub access_mode : AccessMode

-- `parameters` is none for a nil map; an absent list of capabilities is the empty one.
pub record CreateVolumeRequest : Type 0 where
  pub name : String
  pub parameters : Option (Map String)
  pub content_source : Bool
  pub volume_capabilities : List VolumeCapability
  pub required_bytes : ℤ
  pub limit_bytes : ℤ
  pub accessibility_requirements : Option TopologyRequirement

-- The capacity, the id, the attributes and the node of the topology of the response
pub record Volume : Type 0 where
  pub capacity_bytes : ℤ
  pub volume_id : String
  pub volume_context : Map String
  pub node : String

-- controllerService without its locks, and the configuration that the node service reads
pub record Services (W : Type 0) : Type 0 where
  pub client : Client W
  pub cluster : W → Cluster
  pub selectors : List DiskSelectorItem
  pub strategy : String

-- What a call that takes a lock works on
abbrev pub Controller : Type 0 → Type 0 → Type 0
Controller S W = GlobalLocks S × Timed W

-- req.GetParameters()
abbrev pub parameters : CreateVolumeRequest → Map String
parameters r = elim r.parameters [ none ↦ [] | some entries ↦ entries ]

-- A test for the empty list
abbrev pub if_empty {ℓ} : {A : Type ℓ} {B : Type 0} → List B → A → A → A
if_empty [] x y = x
if_empty (b ∷ bs) x y = y

-- `if err != nil { return status.Error(code, text) }`; a panic goes on.
abbrev pub fails_with {ℓ} : {A : Type ℓ} → (Error → Error) → Result A → Result A
fails_with reason (ok a) = ok a
fails_with reason (err e) = err (reason e)

-- `return nil, status.Error(codes.Internal, err.Error())`
unfoldable pub internal_error : Error → Error
unfolding message
internal_error Error.panic = Error.panic
internal_error e = status internal (message e)

-- `_, ok := status.FromError(err); if !ok { internal }; return nil, err`
unfoldable pub as_returned {ℓ} : {A : Type ℓ} → Result A → Result A
unfolding as_status
as_returned r = fails_with as_status r
