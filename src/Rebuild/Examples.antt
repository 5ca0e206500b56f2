-- ===== src/Rebuild/Examples.antt =====
-- Runs of the node controller on a cluster whose world is the list of the texts of the calls.
use carina.Base.{
  String, pos, ◌≡◌, refl, false, Option, none, some, List, [], ◌∷◌, ◌++◌, All, ◌<>◌, lookup, insert,
  text_at,
}
use carina.Errors.{panic, code_ok, ok, err}
use carina.Api.{LogicVolume}
use carina.Placement.{found}
use carina.Volume.{Op}
use carina.Reconciler.{logic_volume_finalizer}
use carina.Config.{contains_string}
use carina.Reconciler.Retry.{caught, until_max_retry}
use carina.Csi.Ends.{AnyError, Ends}
use carina.Rebuild.{
  Node, Cluster, created, node_status_list, pv_map, allow_pod_migration, get_need_rebuild_volume,
}
use carina.Rebuild.Claims.{resource_reconcile}
use carina.Rebuild.Lost.{Rebuilds, get_need_rebuild_volume-Rebuilds}

abbrev lv_of : (name node pvc : String) → LogicVolume
lv_of name node pvc = record {
  name = name;
  annotations = [];
  finalizers = logic_volume_finalizer ∷ [];
  owner = "";
  deleting = false;
  spec = record { node_name = node; size = pos 0; device_group = "g"; pvc = pvc; name_space = "d" };
  status = record {
    volume_id = name;
    code = code_ok;
    message = "";
    current_size = none;
    status = "Success";
    device_major = 0;
    device_minor = 0;
  };
}

-- One volume on a lost node, one on a good node, one without a persistent volume
abbrev three : List LogicVolume
three = lv_of "a" "n1" "pa" ∷ lv_of "b" "n2" "pb" ∷ lv_of "o" "n2" "po" ∷ []

abbrev two_nodes : List Node
two_nodes =
    record {
      name = "n1";
      deleting = false;
      terminated = false;
      conditions = ("Ready", "Unknown") ∷ [];
    }
    ∷ record {
      name = "n2";
      deleting = false;
      terminated = false;
      conditions = ("Ready", "True") ∷ [];
    }
    ∷ []

abbrev two_pvs : List (String × String)
two_pvs = ("a", "Bound") ∷ ("b", "Bound") ∷ []

abbrev call : String → Op (List String) (Unit {0})
call text w = (ok tt, w ++ text ∷ [])

abbrev cluster : List (Option String) → Cluster (List String)
cluster claims = record {
  lvs = λ w. ok three;
  nodes = λ w. ok two_nodes;
  pvs = λ w. ok two_pvs;
  pods = λ node w. ok (
      record { name = "p"; annotations = (allow_pod_migration, "true") ∷ []; claims = claims }
      ∷ []);
  delete_lv = λ lv. call ("delete " <> lv.name);
  patch_lv = λ from to. call ("patch " <> to.name);
  delete_pod = λ p w. (found tt, w ++ ("kill " <> p.name) ∷ []);
  get_claim = λ key w.
      ok (record { volume_name = "a"; storage_class = some "s"; volume_mode = none; shown = [] });
  delete_claim = λ key. call ("delete claim " <> key.1);
  create_claim = λ key pvc w. (created, w ++ ("create claim " <> key.1) ∷ []);
}

reconcile_run : resource_reconcile (cluster (some "pa" ∷ [])) [] ≡ (
  ok tt,
  "kill p" ∷ "patch a" ∷ "delete o" ∷ "patch o" ∷ "delete claim pa" ∷ "create claim pa" ∷ [],
)
unfolding resource_reconcile get_need_rebuild_volume lookup insert text_at contains_string caught
    until_max_retry
reconcile_run = refl

-- A pod on the lost node with a volume that is no claim
no_claim_run : (resource_reconcile (cluster (none ∷ some "pa" ∷ [])) []).0 ≡ err panic
unfolding resource_reconcile get_need_rebuild_volume lookup insert text_at
no_claim_run = refl

abbrev start : List String
start = []

get_need_rebuild_volume-Rebuilds_example :
    Ends AnyError
      (All (
        Rebuilds
          (cluster (some "pa" ∷ []))
          (node_status_list two_nodes [])
          (pv_map two_pvs [])
          three))
      (get_need_rebuild_volume (cluster (some "pa" ∷ [])) start).0
get_need_rebuild_volume-Rebuilds_example =
    get_need_rebuild_volume-Rebuilds (cluster (some "pa" ∷ [])) start three two_nodes two_pvs refl
      refl refl
