-- ===== src/Placement/Select.antt =====
-- SelectDeviceGroup, SelectNode and SelectMultiVolumeNode of node_service.go.
pub mod Sound
use carina.Base.{
  String, ℤ, Bool, true, false, ◌&&◌, ◌||◌, not, Option, none, some, List, [], ◌∷◌, ◌++◌, Map, any,
  ltb_ℤ, leb_ℤ, contains, strip_prefix, sort_by, ◌==◌, if◌then◌else◌,
}
use carina.Errors.{Error, plain, Result, ok, err, ◌>>=◌}
use carina.Api.{NodeStorageResource}
use carina.Config.{DiskSelectorItem}
use carina.Placement.{
  Node, TopologyRequirement, Cluster, get_nsr, get_lv_exclusivity_disks, ready_node,
  topology_match_node_labels, get_nodes,
}
use carina.Placement.Candidates.{
  GroupPair, Wanted, lvm_volume_type, raw_volume_type, capacity_key_prefix, device_usable,
  node_usable, offers, by_strategy, choose,
}

module _ (selectors : List DiskSelectorItem) (strategy : String) (cluster : Cluster) where
  -- The exclusive disks matter for raw volumes only.
  unfoldable pub taken_disks : String → String → Result (List String)
  taken_disks volume_type node_name =
      if volume_type == raw_volume_type then get_lv_exclusivity_disks cluster node_name else ok []

  unfoldable pub device_candidates : Wanted → String → Result (List GroupPair)
  unfolding taken_disks
  device_candidates w node_name = do
    nsr ← get_nsr cluster node_name
    lv_exclusivity_disks ← taken_disks w.volume_type node_name
    ok (
        offers (device_usable selectors w lv_exclusivity_disks nsr.disks) w.request_gb ""
          nsr.allocatable)

  unfoldable pub select_device_group : Wanted → String → Result String
  unfolding device_candidates
  select_device_group w node_name =
      if w.volume_type == lvm_volume_type && not (w.sc_device_group == "")
      then ok w.sc_device_group
      else do
        preselect_node ← device_candidates w node_name
        chosen ← choose strategy preselect_node
        ok chosen.group

  -- A node whose storage or whose exclusive disks cannot be read is passed over.
  storage_offers : Wanted → String → NodeStorageResource → Result (List String) → List GroupPair
  storage_offers w node_name nsr (err e) = []
  storage_offers w node_name nsr (ok lv_exclusivity_disks) =
      offers (node_usable selectors w lv_exclusivity_disks nsr.disks) w.request_gb node_name
        nsr.allocatable

  node_offers : Wanted → String → Result NodeStorageResource → List GroupPair
  unfolding storage_offers taken_disks
  node_offers w node_name (err e) = []
  node_offers w node_name (ok nsr) =
      storage_offers w node_name nsr (taken_disks w.volume_type node_name)

  unfoldable pub nodes_offers : Wanted → Option TopologyRequirement → List Node → List GroupPair
  unfolding node_offers
  nodes_offers w requirement [] = []
  nodes_offers w requirement (node ∷ nodes) =
      if ready_node node && topology_match_node_labels cluster node.labels requirement
      then node_offers w node.name (get_nsr cluster node.name) ++ nodes_offers w requirement nodes
      else nodes_offers w requirement nodes

  -- The chosen node and device group
  unfoldable pub select_node : Wanted → Option TopologyRequirement → Result (String × String)
  unfolding nodes_offers
  select_node w requirement = do
    nodes ← get_nodes cluster none
    chosen ← choose strategy (nodes_offers w requirement nodes)
    ok (chosen.node_name, chosen.group)

  -- The entries with the prefix whose key contains the group's name
  named : String → String × ℤ → Bool
  named group (group_detail, allocatable) = elim (strip_prefix capacity_key_prefix group_detail) [
    | none ↦ false
    | some rest ↦ contains group_detail group
  ]

  cache_fits : String → ℤ → Map ℤ → Bool
  unfolding named
  cache_fits group request_gb entries = any (λ e. named group e && leb_ℤ request_gb e.1) entries

  backend_offers : String → ℤ → String → Map ℤ → List GroupPair
  unfolding named
  backend_offers group request_gb node_name [] = []
  backend_offers group request_gb node_name (e ∷ entries) =
      if named group e && leb_ℤ request_gb e.1
      then record { node_name = node_name; group = ""; allocatable = e.1 }
        ∷ backend_offers group request_gb node_name entries
      else backend_offers group request_gb node_name entries

  multi_offers :
      (backend_group cache_group : String) (backend_gb cache_gb : ℤ)
      → Node
      → Result NodeStorageResource
      → List GroupPair
  multi_offers backend_group cache_group backend_gb cache_gb node (err e) = []
  multi_offers backend_group cache_group backend_gb cache_gb node (ok nsr) =
      if cache_fits cache_group cache_gb nsr.allocatable
      then backend_offers backend_group backend_gb node.name nsr.allocatable
      else []

  nodes_multi_offers :
      (backend_group cache_group : String) (backend_gb cache_gb : ℤ)
      → Option TopologyRequirement
      → List Node
      → List GroupPair
  unfolding multi_offers backend_offers cache_fits
  nodes_multi_offers backend_group cache_group backend_gb cache_gb requirement [] = []
  nodes_multi_offers backend_group cache_group backend_gb cache_gb requirement (node ∷ nodes) =
      let rest =
        nodes_multi_offers backend_group cache_group backend_gb cache_gb requirement nodes in
      if topology_match_node_labels cluster node.labels requirement
      then multi_offers backend_group cache_group backend_gb cache_gb node
          (get_nsr cluster node.name)
        ++ rest
      else rest

  unfoldable pub select_multi_volume_node :
      (backend_group cache_group : String) (backend_gb cache_gb : ℤ)
      → Option TopologyRequirement
      → Result String
  unfolding nodes_multi_offers
  select_multi_volume_node backend_group cache_group backend_gb cache_gb requirement = do
    nodes ← get_nodes cluster none
    chosen ← by_strategy strategy (
        sort_by (λ p. p.allocatable)
          (nodes_multi_offers backend_group cache_group backend_gb cache_gb requirement nodes))
    ok chosen.node_name
