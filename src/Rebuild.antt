-- ===== src/Rebuild.antt =====
-- The controller that moves volumes off a lost node: controllers/node_controller.go. The API server is
-- the record `Cluster` of operations over a world.
pub mod Claims
pub mod Lost
pub mod Examples
use carina.Base.{
  String, ℕ, Bool, true, false, ◌&&◌, ◌||◌, not, Option, none, some, List, [], ◌∷◌, Map, lookup,
  insert, text_at, ◌==◌, if◌then◌else◌,
}
use carina.Errors.{Error, plain, panic, Result, ok, err}
use carina.Api.{LogicVolume}
use carina.Config.{contains_string}
use carina.Placement.{Found, found, not_found, failed}
use carina.Volume.{Op, ◌>>=◌, ◌>>◌, read, give}
use carina.Reconciler.{logic_volume_finalizer, slice_remove_string}

-- A pod's volumes by the claims they use, none for a volume that is no claim
pub record Pod : Type 0 where
  pub name : String
  pub annotations : Map String
  pub claims : List (Option String)

-- Conditions are pairs of a type and a status.
pub record Node : Type 0 where
  pub name : String
  pub deleting : Bool
  pub terminated : Bool
  pub conditions : List (String × String)

pub data NodeStatus : Type 0 where
  normal abnormal : NodeStatus

-- What the new claim takes over, but for the name of the volume; `shown` are the access modes, the
-- selector, the resources and the data source.
pub record ClaimSpec : Type 0 where
  pub volume_name : String
  pub storage_class : Option String
  pub volume_mode : Option String
  pub shown : List String

-- Namespace and name of a claim
abbrev pub ObjectKey : Type 0
ObjectKey = String × String

-- What the API server answers to the creation of a claim: that it exists, with a message, or another
-- error
pub data Creation : Type 0 where
  created : Creation
  exists : (message : String) → Error → Creation
  refused : Error → Creation

-- `pods` are those of Carina's scheduler on a node; `pvs` are names and phases.
pub record Cluster (W : Type 0) : Type 0 where
  pub lvs : W → Result (List LogicVolume)
  pub nodes : W → Result (List Node)
  pub pvs : W → Result (List (String × String))
  pub pods : String → W → Result (List Pod)
  pub delete_lv : LogicVolume → Op W (Unit {0})
  pub patch_lv : (from to : LogicVolume) → Op W (Unit {0})
  pub delete_pod : Pod → W → Found (Unit {0}) × W
  pub get_claim : ObjectKey → W → Result ClaimSpec
  pub delete_claim : ObjectKey → Op W (Unit {0})
  pub create_claim : ObjectKey → ClaimSpec → W → Creation × W

-- The two tests of a node in nodeStatusList
unfoldable pub condition_status : List (String × String) → NodeStatus → NodeStatus
condition_status [] st = st
condition_status ((type, status) ∷ conditions) st =
    condition_status conditions (if type == "Ready" && not (status == "True") then abnormal else st)

unfoldable pub node_status_list : List Node → Map NodeStatus → Map NodeStatus
unfolding condition_status
node_status_list [] m = m
node_status_list (n ∷ ns) m = node_status_list ns (
    insert n.name
      (condition_status n.conditions (if n.deleting || n.terminated then abnormal else normal)) m)

unfoldable pub pv_map : List (String × String) → Map String → Map String
pv_map [] m = m
pv_map ((name, phase) ∷ pvs) m = pv_map pvs (insert name phase m)

abbrev pub allow_pod_migration : String
allow_pod_migration = "carina.storage.io/allow-pod-migration-if-node-notready"

unfoldable pub allows_migration : Pod → Bool
allows_migration p = elim (lookup allow_pod_migration p.annotations) [
  | none ↦ false
  | some v ↦ not (v == "false")
]

-- The loop over a pod's volumes in skipLv. The debug line reads the claim before the test for nil.
unfoldable pub skip_claims : (pvc : String) → Pod → List (Option String) → Option (Result Bool)
unfolding allows_migration
skip_claims pvc p [] = none
skip_claims pvc p (none ∷ claims) = some (err panic)
skip_claims pvc p (some name ∷ claims) =
    let rest = skip_claims pvc p claims in
    if name == pvc then some (ok (not (allows_migration p))) else rest

unfoldable pub skip_pods : (pvc : String) → List Pod → Result Bool
unfolding skip_claims
skip_pods pvc [] = err (plain "skipLv did not found pod, skip")
skip_pods pvc (p ∷ ps) =
    let rest = skip_pods pvc ps in elim (skip_claims pvc p p.claims) [ none ↦ rest | some r ↦ r ]

abbrev pub is_normal : Option NodeStatus → Bool
is_normal none = false
is_normal (some normal) = true
is_normal (some abnormal) = false

abbrev pub is_missing : Option String → Bool
is_missing none = true
is_missing (some phase) = false

-- An error of skipLv is logged and the volume is skipped.
abbrev pub decided : Result Bool → Result Bool
decided (err panic) = err panic
decided (err e) = ok true
decided (ok skip) = ok skip

abbrev pub put : LogicVolume → Option ObjectKey → Map ObjectKey → Map ObjectKey
put lv none m = m
put lv (some key) m = insert lv.name key m

module _ {W : Type 0} (c : Cluster W) where
  -- killPod
  abbrev killed : Found (Unit {0}) × W → Result (Unit {0}) × W
  killed (found done, w) = (ok tt, w)
  killed (not_found e, w) = (ok tt, w)
  killed (failed e, w) = (err e, w)

  unfoldable pub kill_pod : Pod → Op W (Unit {0})
  kill_pod p w = killed (c.delete_pod p w)

  kill_allowed : List Pod → Op W (Unit {0})
  unfolding kill_pod
  kill_allowed [] = give (ok tt)
  kill_allowed (p ∷ ps) =
      let rest = kill_allowed ps in if allows_migration p then kill_pod p >> rest else rest

  unfoldable pub clear_pod : (node_name : String) → Op W (Unit {0})
  unfolding kill_allowed
  clear_pod node_name = read (c.pods node_name) >>= λ ps. kill_allowed ps

  unfoldable pub skip_lv : LogicVolume → W → Result Bool
  unfolding skip_pods
  skip_lv lv w = elim (c.pods lv.spec.node_name w) [
    | err e ↦ err e
    | ok ps ↦ skip_pods lv.spec.pvc ps
  ]

  -- The finalizer is taken out of the object.
  unfoldable pub strip_finalizer : LogicVolume → Op W (Unit {0})
  strip_finalizer lv =
      if contains_string lv.finalizers logic_volume_finalizer
      then c.patch_lv lv
          (record lv { finalizers = slice_remove_string lv.finalizers logic_volume_finalizer })
      else give (ok tt)

  -- A volume whose persistent volume is gone is removed.
  unfoldable pub remove_orphan : LogicVolume → Op W (Option ObjectKey)
  unfolding strip_finalizer
  remove_orphan lv =
      (if contains_string lv.finalizers logic_volume_finalizer
        then c.delete_lv lv >> strip_finalizer lv
        else give (ok tt))
      >> give (ok none)

  unfoldable pub move : LogicVolume → Op W (Option ObjectKey)
  unfolding clear_pod strip_finalizer
  move lv =
      clear_pod lv.spec.node_name
      >> (strip_finalizer lv >> give (ok (some (lv.spec.name_space, lv.spec.pvc))))

  unfoldable pub consider : LogicVolume → Op W (Option ObjectKey)
  unfolding skip_lv move
  consider lv =
      read (λ w. decided (skip_lv lv w)) >>= λ skip. if skip then give (ok none) else move lv

  module _ (statuses : Map NodeStatus) (phases : Map String) where
    -- The body of the loop, with the entry that it adds to the map
    unfoldable pub visit : LogicVolume → Op W (Option ObjectKey)
    unfolding remove_orphan consider
    visit lv =
        if not (lv.owner == "")
        then give (ok none)
        else if not (lv.status.status == "") && is_missing (lookup lv.name phases)
        then remove_orphan lv
        else if not (text_at lv.name phases == "Bound")
        then give (ok none)
        else if is_normal (lookup lv.spec.node_name statuses)
        then give (ok none)
        else consider lv

    unfoldable pub visit_all : List LogicVolume → Map ObjectKey → Op W (Map ObjectKey)
    unfolding visit
    visit_all [] m = give (ok m)
    visit_all (lv ∷ lvs) m = visit lv >>= λ key. visit_all lvs (put lv key m)

  -- On an error the map is not used.
  abbrev pub examine : List LogicVolume → Op W (Map ObjectKey)
  examine [] = give (ok [])
  examine (lv ∷ lvs) = do
    ns ← read c.nodes
    pvs ← read c.pvs
    visit_all (node_status_list ns []) (pv_map pvs []) (lv ∷ lvs) []

  unfoldable pub get_need_rebuild_volume : Op W (Map ObjectKey)
  unfolding node_status_list pv_map visit_all
  get_need_rebuild_volume = read c.lvs >>= λ lvs. examine lvs
