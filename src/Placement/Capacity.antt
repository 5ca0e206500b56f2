-- ===== src/Placement/Capacity.antt =====
-- GetCapacityByNodeName and GetTotalCapacity of node_service.go.
use carina.Base.{
  String, ℤ, pos, Bool, Option, none, some, List, [], ◌∷◌, Map, lookup, add64, strip_prefix, ◌<>◌,
  if◌then◌else◌,
}
use carina.Errors.{plain, Result, ok, err, ◌>>=◌}
use carina.Api.{NodeStorageResource}
use carina.Config.{DiskSelectorItem, check_raw_device_group}
use carina.Placement.{Node, Cluster, get_nsr, get_nodes, ready_node}
use carina.Placement.Candidates.{
  Wanted, lvm_volume_type, raw_volume_type, capacity_key_prefix, node_usable,
}
use carina.Placement.Select.{taken_disks}

unfoldable pub get_capacity_by_node_name : Cluster → (node_name lv_device_group : String) → Result ℤ
get_capacity_by_node_name cluster node_name lv_device_group = do
  nsr ← get_nsr cluster node_name
  elim (lookup (capacity_key_prefix <> lv_device_group) nsr.allocatable) [
    | none ↦ err (plain "device group not found")
    | some allocatable ↦ ok allocatable
  ]

-- What an entry of `Status.Capacity` with this group, if it has one, adds
add_capacity : (String → Bool) → ℤ → ℤ → Option String → ℤ
add_capacity usable capacity allocatable none = capacity
add_capacity usable capacity allocatable (some group) =
    if usable group then add64 capacity allocatable else capacity

-- The loop over `Status.Capacity`, which adds what its body lets through
unfoldable pub add_capacities : (String → Bool) → ℤ → Map ℤ → ℤ
unfolding add_capacity
add_capacities usable capacity [] = capacity
add_capacities usable capacity ((group_detail, allocatable) ∷ entries) =
    add_capacities usable
      (add_capacity usable capacity allocatable (strip_prefix capacity_key_prefix group_detail))
      entries

module _ (selectors : List DiskSelectorItem) (cluster : Cluster) (w : Wanted) where
  -- A node whose exclusive disks cannot be read is passed over.
  add_storage : ℤ → NodeStorageResource → Result (List String) → ℤ
  unfolding add_capacities
  add_storage capacity nsr (err e) = capacity
  add_storage capacity nsr (ok lv_exclusivity_disks) =
      add_capacities (node_usable selectors w lv_exclusivity_disks nsr.disks) capacity nsr.capacity

  add_node : ℤ → String → Result NodeStorageResource → ℤ
  unfolding add_storage
  add_node capacity node_name (err e) = capacity
  add_node capacity node_name (ok nsr) =
      add_storage capacity nsr (taken_disks selectors "" cluster w.volume_type node_name)

  unfoldable pub add_nodes : ℤ → List Node → ℤ
  unfolding add_node
  add_nodes capacity [] = capacity
  add_nodes capacity (node ∷ nodes) =
      add_nodes
        (if ready_node node
          then add_node capacity node.name (get_nsr cluster node.name)
          else capacity)
        nodes

-- The request that GetTotalCapacity has in mind: any size, and the kind of the group it is given
total_wanted : List DiskSelectorItem → String → Bool → Wanted
total_wanted selectors sc_device_group exclusivity_disk = record {
  request_gb = pos 0;
  volume_type =
      if check_raw_device_group selectors sc_device_group then raw_volume_type else lvm_volume_type;
  sc_device_group = sc_device_group;
  exclusivity_disk = exclusivity_disk;
}

unfoldable pub get_total_capacity :
    List DiskSelectorItem → Cluster → String → (topology : Option (Map String)) → Bool → Result ℤ
unfolding total_wanted add_nodes
get_total_capacity selectors cluster sc_device_group topology exclusivity_disk = do
  nodes ← get_nodes cluster topology
  ok (
      add_nodes selectors cluster (total_wanted selectors sc_device_group exclusivity_disk) (pos 0)
        nodes)
