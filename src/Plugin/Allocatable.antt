-- ===== src/Plugin/Allocatable.antt =====
-- `getAllocatableMap` of scheduler/schedulerplugin/localstorage/storage-plugins.go, and the readers of
-- scheduler/schedulerplugin/localstorage/k8s.go that it uses.
use carina.Base.{
  String, ℤ, Bool, true, false, ◌&&◌, Option, none, some, List, [], ◌∷◌, Map, insert, text_at,
  before, strip_prefix, ◌==◌, if◌then◌else◌,
}
use carina.Errors.{plain, Result, ok, err, wrap, ◌>>=◌}
use carina.Api.{LogicVolume, NodeStorageResource}
use carina.Config.{DiskSelectorItem, contains_string, check_raw_device_group}
use carina.Plugin.{Cluster}
use carina.Plugin.Keys.{device_capacity_key_prefix, exclusivity_disk}

-- The first conversion that fails ends the loop.
all_converted : List (Result LogicVolume) → Result (List LogicVolume)
all_converted [] = ok []
all_converted (object ∷ objects) = do lv ← object; lvs ← all_converted objects; ok (lv ∷ lvs)

list_lvs : Cluster → Result (List LogicVolume)
unfolding all_converted
list_lvs cluster = elim cluster.cached_lvs [
  | ok objects ↦ all_converted objects
  | err e ↦ cluster.api_lvs
]

exclusive_groups : String → List LogicVolume → List String
exclusive_groups node_name [] = []
exclusive_groups node_name (lv ∷ lvs) =
    if lv.spec.node_name == node_name && text_at exclusivity_disk lv.annotations == "true"
    then lv.spec.device_group ∷ exclusive_groups node_name lvs
    else exclusive_groups node_name lvs

-- getLvExclusivityDisks
unfoldable pub get_lv_exclusivity_disks : Cluster → String → Result (List String)
unfolding list_lvs exclusive_groups
get_lv_exclusivity_disks cluster node_name = do
  lvs ← list_lvs cluster
  ok (exclusive_groups node_name lvs)

-- getNodeStorageResource
unfoldable pub get_node_storage_resource : Cluster → String → Result NodeStorageResource
get_node_storage_resource cluster node_name = elim (cluster.cached_nsr node_name) [
  | ok converted ↦ converted
  | err e ↦ cluster.api_nsr node_name
]

-- Is the disk of a raw group, and taken by an exclusive volume?
unfoldable pub skipped : List DiskSelectorItem → List String → String → Bool
skipped selectors exclusivity_disks lv_group =
    check_raw_device_group selectors (before b'/' lv_group)
    && contains_string exclusivity_disks lv_group

abbrev with_group : List DiskSelectorItem → List String → ℤ → Map ℤ → Option String → Map ℤ
with_group selectors exclusivity_disks value m none = m
with_group selectors exclusivity_disks value m (some lv_group) =
    if skipped selectors exclusivity_disks lv_group then m else insert lv_group value m

-- The loop over `nsr.Status.Allocatable`: entries with the capacity prefix, without it.
unfoldable pub allocatable_from : List DiskSelectorItem → List String → Map ℤ → Map ℤ → Map ℤ
allocatable_from selectors exclusivity_disks [] m = m
allocatable_from selectors exclusivity_disks ((group_detail, value) ∷ entries) m =
    allocatable_from selectors exclusivity_disks entries (
      with_group selectors exclusivity_disks value m
        (strip_prefix device_capacity_key_prefix group_detail))

abbrev exclusivity_disks_if : Bool → Cluster → String → Result (List String)
exclusivity_disks_if true cluster node_name = get_lv_exclusivity_disks cluster node_name
exclusivity_disks_if false cluster node_name = ok []

abbrev nonempty : Map ℤ → Result (Map ℤ)
nonempty [] = err (plain "can't get device allocatableMap")
nonempty (entry ∷ entries) = ok (entry ∷ entries)

unfoldable pub get_allocatable_map :
    List DiskSelectorItem → Cluster → (use_raw : Bool) → String → Result (Map ℤ)
unfolding get_node_storage_resource wrap
get_allocatable_map selectors cluster use_raw node_name = do
  exclusivity_disks ←
      wrap "failed to obtain node lvs, " (exclusivity_disks_if use_raw cluster node_name)
  nsr ← wrap "Failed to obtain node storages, " (get_node_storage_resource cluster node_name)
  nonempty (allocatable_from selectors exclusivity_disks nsr.allocatable [])
