-- ===== src/Placement.antt =====
-- The node service of the controller, pkg/csidriver/driver/k8s/node_service.go: which node and which
-- device group take a new volume. What it asks of Kubernetes is the record `Cluster`.
pub mod Candidates
pub mod Select
pub mod Capacity
pub mod Examples
use carina.Base.{
  ◌<>◌, String, ℤ, Bool, true, false, ◌&&◌, ◌||◌, not, Option, none, some, List, [], ◌∷◌, Map, any,
  text_at, ◌==◌, if◌then◌else◌,
}
use carina.Errors.{Error, Code, internal, plain, status, Result, ok, err, ◌>>=◌}
use carina.Api.{LogicVolume, NodeStorageResource}

-- `labels` is none for a nil map; a condition is its type and its status.
pub record Node : Type 0 where
  pub name : String
  pub labels : Option (Map String)
  pub conditions : List (String × String)

-- csi.TopologyRequirement: the segments of each topology
pub record TopologyRequirement : Type 0 where
  pub preferred : List (Map String)
  pub requisite : List (Map String)

-- A read of the cache tells "not found" from other failures.
pub data Found (A : Type 0) : Type 0 where
  found : A → Found A
  not_found : Error → Found A
  failed : Error → Found A

pub record Cluster : Type 0 where
  pub list_nodes : Result (List Node)
  pub list_nodes_with : Map String → Result (List Node)
  pub cache_nsr : String → Found NodeStorageResource
  pub api_nsr : String → Result NodeStorageResource
  pub cache_lvs : String → Result (List LogicVolume)
  pub api_lvs : Result (List LogicVolume)
  pub cache_pvc : (namespace name : String) → Found (Map String)
  pub api_pvc : (namespace name : String) → Result (Map String)
  -- labels.SelectorFromSet(segments).Matches(labels)
  pub matches : (segments labels : Map String) → Bool

-- RetryGetter.Get (getter/retry_getter.go): the API server is asked only for what the cache lacks.
unfoldable pub retry_get : {A : Type 0} → Found A → Result A → Result A
retry_get (found a) api = ok a
retry_get (not_found e) api = api
retry_get (failed e) api = err e

unfoldable pub get_nsr : Cluster → String → Result NodeStorageResource
unfolding retry_get
get_nsr cluster name = retry_get (cluster.cache_nsr name) (cluster.api_nsr name)

on_node : String → List LogicVolume → List LogicVolume
on_node node_name [] = []
on_node node_name (lv ∷ lvs) =
    if lv.spec.node_name == node_name then lv ∷ on_node node_name lvs else on_node node_name lvs

-- GetByNodeName of pkg/csidriver/driver/k8s/logicvolume_service.go
unfoldable pub get_by_node_name : Cluster → String → (try_reader : Bool) → Result (List LogicVolume)
unfolding on_node
get_by_node_name cluster node_name try_reader = do
  cached ← cluster.cache_lvs node_name
  elim cached [
    | lv ∷ lvs ↦ ok (lv ∷ lvs)
    | [] ↦ if try_reader then (do lvs ← cluster.api_lvs; ok (on_node node_name lvs)) else ok []
  ]

abbrev pub exclusivity_disk : String
exclusivity_disk = "carina.storage.io/exclusively-raw-disk"

exclusive_groups : List LogicVolume → List String
exclusive_groups [] = []
exclusive_groups (lv ∷ lvs) =
    if text_at exclusivity_disk lv.annotations == "true"
    then lv.spec.device_group ∷ exclusive_groups lvs
    else exclusive_groups lvs

-- getLvExclusivityDisks
unfoldable pub get_lv_exclusivity_disks : Cluster → String → Result (List String)
unfolding get_by_node_name exclusive_groups
get_lv_exclusivity_disks cluster node_name = elim (get_by_node_name cluster node_name true) [
  | ok lvs ↦ ok (exclusive_groups lvs)
  | err e ↦ err (status internal ("can not get logic volumes for nodeName " <> node_name))
]

-- HaveSelectedNode
unfoldable pub have_selected_node : Cluster → (namespace name : String) → Result String
unfolding retry_get
have_selected_node cluster namespace name = do
  annotations ← retry_get (cluster.cache_pvc namespace name) (cluster.api_pvc namespace name)
  let node = text_at "volume.kubernetes.io/selected-node" annotations
  ok (if node == "" then text_at "volume.alpha.kubernetes.io/selected-node" annotations else node)

-- readyNode
unfoldable pub ready_node : Node → Bool
ready_node node = any (λ c. c.0 == "Ready" && c.1 == "True") node.conditions

-- topologyMatchNodeLabels
unfoldable pub topology_match_node_labels :
    Cluster → Option (Map String) → Option TopologyRequirement → Bool
topology_match_node_labels cluster none requirement = false
topology_match_node_labels cluster (some node_labels) none = false
topology_match_node_labels cluster (some node_labels) (some requirement) =
    any (λ segments. cluster.matches segments node_labels) requirement.preferred
    || any (λ segments. cluster.matches segments node_labels) requirement.requisite

-- getNodes
unfoldable pub get_nodes : Cluster → Option (Map String) → Result (List Node)
get_nodes cluster none = cluster.list_nodes
get_nodes cluster (some []) = cluster.list_nodes
get_nodes cluster (some (s ∷ segments)) = cluster.list_nodes_with (s ∷ segments)
