-- ===== src/Placement/Examples.antt =====
-- A cluster of two nodes with a raw group on each.
use carina.Base.{
  run, String, ℤ, pos, ◌≡◌, refl, inl, inr, true, false, Option, none, some, List, [], ◌∷◌, In,
  arith, strip_prefix, ◌==◌, if◌then◌else◌, eq_iff,
}
use carina.Errors.{plain, ok, err}
use carina.Api.{NodeStorageResource}
use carina.Config.{DiskSelectorItem, check_raw_device_group, binpack, spreadout}
use carina.Placement.{
  Node, TopologyRequirement, Cluster, found, get_nsr, get_nodes, ready_node,
  topology_match_node_labels, get_lv_exclusivity_disks,
}
use carina.Placement.Candidates.{
  GroupPair, Wanted, raw_volume_type, capacity_key_prefix, node_usable, device_usable, offers,
  choose, exist_partition,
}
use carina.Placement.Candidates.Sound.{offers_complete}
use carina.Placement.Candidates.Best.{Best, choose-Best, choose-ok}
use carina.Placement.Select.{taken_disks, select_device_group, nodes_offers, select_node}
use carina.Placement.Select.Sound.{Placed, FromNode, select_device_group-Placed, select_node-Placed}

abbrev raw_group : DiskSelectorItem
raw_group = record { name = "carina-raw-ssd"; re = "loop" ∷ []; policy = "RAW"; node_label = "" }

abbrev storage_of : String → ℤ → NodeStorageResource
storage_of name free = record {
  name = name;
  capacity = ("carina.storage.io/carina-raw-ssd/loop1", pos 100) ∷ [];
  allocatable =
      ("carina.storage.io/carina-vg-hdd", pos 90)
      ∷ ("carina.storage.io/carina-raw-ssd/loop1", free)
      ∷ [];
  vg_groups = [];
  disks = [];
}

abbrev node_of : String → Node
node_of name = record {
  name = name;
  labels = some (("zone", name) ∷ []);
  conditions = ("Ready", "True") ∷ [];
}

abbrev cluster : Cluster
cluster = record {
  list_nodes = ok (node_of "a" ∷ node_of "b" ∷ []);
  list_nodes_with = λ segments. ok [];
  cache_nsr = λ name. found (storage_of name (if name == "a" then pos 20 else pos 60));
  api_nsr = λ name. err (plain "unused");
  cache_lvs = λ name. ok [];
  api_lvs = ok [];
  cache_pvc = λ namespace name. found [];
  api_pvc = λ namespace name. ok [];
  matches = λ segments labels. true;
}

abbrev wanted : Wanted
wanted = record {
  request_gb = pos 15;
  volume_type = raw_volume_type;
  sc_device_group = "carina-raw-ssd";
  exclusivity_disk = false;
}

abbrev anywhere : Option TopologyRequirement
anywhere = some (record { preferred = [] ∷ []; requisite = [] })

selected_node :
    select_node (raw_group ∷ []) spreadout cluster wanted anywhere
    ≡ ok ("b", "carina-raw-ssd/loop1")
unfolding select_node run get_nodes choose ready_node topology_match_node_labels get_nsr
    get_lv_exclusivity_disks offers node_usable check_raw_device_group exist_partition
selected_node = refl

selected_group :
    select_device_group (raw_group ∷ []) binpack cluster wanted "a" ≡ ok "carina-raw-ssd/loop1"
unfolding select_device_group run get_nsr get_lv_exclusivity_disks choose offers device_usable
    check_raw_device_group exist_partition
selected_group = refl

select_device_group-Placed_example :
    (nsr : NodeStorageResource) × (taken : List String) × (get_nsr cluster "a" ≡ ok nsr)
    × (taken_disks (raw_group ∷ []) binpack cluster raw_volume_type "a" ≡ ok taken)
    × Placed (raw_group ∷ []) wanted taken nsr "carina-raw-ssd/loop1"
select_device_group-Placed_example =
    select_device_group-Placed (raw_group ∷ []) binpack cluster wanted "a" "carina-raw-ssd/loop1"
      (inl (ground (arith, eq_iff "raw" "lvm"))) selected_group

select_node-Placed_example :
    (nodes : List Node) × (p : GroupPair) × (get_nodes cluster none ≡ ok nodes)
    × ◌≡◌ {A = String × String} (p.node_name, p.group) ("b", "carina-raw-ssd/loop1")
    × FromNode (raw_group ∷ []) spreadout cluster wanted anywhere nodes "b" "carina-raw-ssd/loop1"
    × Best spreadout (nodes_offers (raw_group ∷ []) spreadout cluster wanted anywhere nodes) p
select_node-Placed_example =
    select_node-Placed (raw_group ∷ []) spreadout cluster wanted anywhere "b" "carina-raw-ssd/loop1"
      selected_node

abbrev pair_of : String → ℤ → GroupPair
pair_of name free = record { node_name = name; group = "carina-vg-hdd"; allocatable = free }

abbrev pairs : List GroupPair
pairs = pair_of "a" (pos 30) ∷ pair_of "b" (pos 20) ∷ pair_of "c" (pos 40) ∷ []

chosen_pair : choose binpack pairs ≡ ok (pair_of "b" (pos 20))
unfolding choose run
chosen_pair = refl

choose-Best_run : Best binpack pairs (pair_of "b" (pos 20))
choose-Best_run = choose-Best binpack pairs (pair_of "b" (pos 20)) chosen_pair

choose-ok_example : (p : GroupPair) × (choose spreadout pairs ≡ ok p)
choose-ok_example = choose-ok spreadout pairs (inr refl) (λ e. absurd (ground (arith, e)))

offers_complete_example :
    In
      (record { node_name = "a"; group = "carina-vg-hdd"; allocatable = pos 90 })
      (offers
        (λ group. group == "carina-vg-hdd")
        (pos 15)
        "a"
        (storage_of "a" (pos 20)).allocatable)
offers_complete_example =
    offers_complete (λ group. group == "carina-vg-hdd") (pos 15) "a"
      (storage_of "a" (pos 20)).allocatable "carina.storage.io/carina-vg-hdd" "carina-vg-hdd"
      (pos 90) (inl refl) prefixed (omega arith) refl
  where
    prefixed :
        strip_prefix capacity_key_prefix "carina.storage.io/carina-vg-hdd" ≡ some "carina-vg-hdd"
    prefixed = unfold strip_prefix run in refl
