-- ===== src/Plugin/Examples.antt =====
-- A node with two raw disks and a volume group, and a pod with two claims.
use carina.Base.{
  run, ◌↔◌, ℕ, String, ℤ, pos, ◌+◌, ◌*◌, ◌^◌, ◌≡◌, ◌≢◌, refl, true, false, Option, none, some, List,
  [], ◌∷◌, ◌++◌, All, lookup, get_or, text_at, eq_iff, arith, quot, mul64, ◌==◌, if◌then◌else◌,
  ◌<ℤ◌, Map,
}
use carina.Errors.{plain, ok, err}
use carina.Api.{NodeStorageResource}
use carina.Config.{
  DiskSelectorItem, plugin_device_group, with_vg_prefix, check_raw_device_group,
  check_host_device_group,
}
use carina.Plugin.{Cluster, Pod, PersistentVolumeClaim, StorageClass}
use carina.Plugin.Fit.{PvcRequest, all_placed, minimum_value_minus}
use carina.Plugin.Fit.Packing.{Packs, gib, all_placed-Packs, single_refused}
use carina.Plugin.Requests.{
  Gathered, get_pvc_request_map, add_request, add_cache_request, gather_unbound, volume_group,
}
use carina.Plugin.Requests.Claims.{IsOn, bound_node, last_size, claim_request}
use carina.Plugin.Requests.Merging.{own_request, forgets_earlier, cache_on_backend}
use carina.Plugin.Allocatable.{get_allocatable_map, allocatable_from, skipped}
use carina.Plugin.Filter.{success, filter, groups_fit, group_fits, largest_first}
use carina.Plugin.Filter.Rooms.{Room}
use carina.Plugin.Filter.Fits.{Served, filter-Room}

abbrev gb : ℤ
gb = pos (2 ^ 30)

abbrev ask : PvcRequest
ask = record { exclusive = false; request = pos (3 * 2 ^ 30) }

abbrev two_disks : List ℤ
two_disks = pos 5 ∷ pos 4 ∷ []

placed : all_placed two_disks (ask ∷ ask ∷ []) ≡ true
unfolding all_placed minimum_value_minus run
placed = refl

all_placed-Packs_example : Packs two_disks (ask ∷ ask ∷ [])
all_placed-Packs_example =
    all_placed-Packs (ask ∷ ask ∷ []) two_disks (omega arith) (omega arith) placed

abbrev three_gib : PvcRequest
three_gib = record { exclusive = false; request = pos (2 ^ 31 + 1) }

single_refused_run :
    (all_placed (pos 2 ∷ pos 1 ∷ []) (three_gib ∷ []) ≡ false)
    ↔ All (λ disk. disk <ℤ gib three_gib) (pos 2 ∷ pos 1 ∷ [])
single_refused_run = single_refused (pos 2 ∷ pos 1 ∷ []) three_gib (omega arith)

-- The table of TestMinimumValueMinus (storage-plugins_test.go) reads the 3 as GiB; the code reads
-- bytes, so one GiB is taken from the smallest disk.
table_run :
    (minimum_value_minus
      (pos 3 ∷ pos 4 ∷ pos 5 ∷ pos 2 ∷ pos 5 ∷ pos 23 ∷ pos 1 ∷ [])
      (record { exclusive = false; request = pos 3 })).0
    ≡ pos 0 ∷ pos 2 ∷ pos 3 ∷ pos 4 ∷ pos 5 ∷ pos 5 ∷ pos 23 ∷ []
unfolding minimum_value_minus run
table_run = refl

-- Best fit can miss an assignment that exists: 4 and 3 on the disk of 7, 3 and 3 on the disk of 6.
abbrev greedy : List PvcRequest
greedy = sized 4 ∷ sized 3 ∷ sized 3 ∷ sized 3 ∷ []
  where
    sized : ℕ → PvcRequest
    sized n = record { exclusive = false; request = pos (n * 2 ^ 30) }

greedy_refused : all_placed (pos 7 ∷ pos 6 ∷ []) greedy ≡ false
unfolding all_placed minimum_value_minus run
greedy_refused = refl

abbrev hdd_class : StorageClass
hdd_class = record {
  name = "csi-hdd";
  provisioner = "carina.storage.io";
  parameters = ("carina.storage.io/disk-group-name", "carina-vg-hdd") ∷ [];
}

abbrev cached_class : StorageClass
cached_class = record {
  name = "csi-cached";
  provisioner = "carina.storage.io";
  parameters =
      ("carina.storage.io/backend-disk-group-name", "hdd")
      ∷ ("carina.storage.io/cache-disk-group-name", "ssd")
      ∷ ("carina.storage.io/cache-disk-ratio", "50")
      ∷ [];
}

abbrev claim : PersistentVolumeClaim
claim = record {
  storage_class_name = some "csi-hdd";
  bound = false;
  volume_name = "";
  storage_request = pos (3 * 2 ^ 30);
}

abbrev node_storage : NodeStorageResource
node_storage = record {
  name = "node1";
  capacity = [];
  allocatable = ("carina.storage.io/carina-vg-hdd", pos 4) ∷ ("cpu", pos 8) ∷ [];
  vg_groups = [];
  disks = [];
}

abbrev cluster : Cluster
cluster = record {
  get_pvc = λ namespace name. ok claim;
  get_storage_class = λ name. ok hdd_class;
  get_pv = λ name. err (plain "not found");
  cached_lvs = ok [];
  api_lvs = ok [];
  cached_nsr = λ node. ok (ok node_storage);
  api_nsr = λ node. ok node_storage;
}

abbrev pod : List (Option String) → Pod
pod volumes = record { name = "pod"; namespace = "default"; volumes = volumes }

abbrev selectors : List DiskSelectorItem
selectors =
    record { name = "carina-vg-hdd"; re = "loop2" ∷ []; policy = "LVM"; node_label = "" } ∷ []

programs : Unit {0}
unfolding run get_pvc_request_map get_allocatable_map filter with_vg_prefix check_raw_device_group
    check_host_device_group plugin_device_group allocatable_from skipped groups_fit group_fits
    largest_first all_placed minimum_value_minus gather_unbound volume_group
programs = tt

abbrev one_claim : Gathered
one_claim = record {
  requests = ("carina-vg-hdd", record { exclusive = false; request = pos (3 * 2 ^ 30) } ∷ []) ∷ [];
  node_name = "";
  use_raw = false;
  exclusive = false;
}

one_claim_read : get_pvc_request_map selectors cluster (pod (some "a" ∷ none ∷ [])) ≡ ok one_claim
unfolding programs
one_claim_read = refl

storage_read :
    get_allocatable_map selectors cluster false "node1" ≡ ok (("carina-vg-hdd", pos 4) ∷ [])
unfolding programs
storage_read = refl

passes : filter selectors cluster (pod (some "a" ∷ none ∷ [])) "node1" ≡ ok success
unfolding programs
passes = refl

filter-Room_example :
    All (λ vol. IsOn "node1" (bound_node cluster "default" vol)) (some "a" ∷ none ∷ [])
    × Served selectors
        (("carina-vg-hdd", pos 4) ∷ [])
        "carina-vg-hdd"
        (last_size selectors cluster "default" "carina-vg-hdd" (some "a" ∷ none ∷ []) none)
    × All (λ e. Room selectors (("carina-vg-hdd", pos 4) ∷ []) e.0 e.1) one_claim.requests
filter-Room_example =
    filter-Room selectors cluster (pod (some "a" ∷ none ∷ [])) "node1" "carina-vg-hdd" one_claim
      (("carina-vg-hdd", pos 4) ∷ []) one_claim_read storage_read (omega arith) (omega arith) passes

-- The claim that has to have room is the one of the pod.
last_size_run :
    last_size selectors cluster "default" "carina-vg-hdd" (some "a" ∷ none ∷ []) none
    ≡ some (pos (3 * 2 ^ 30))
unfolding programs last_size claim_request
last_size_run = refl

-- Two claims of 3 GiB pass on a group of 4 GiB: the first is forgotten.
two_claims_pass : filter selectors cluster (pod (some "a" ∷ some "b" ∷ [])) "node1" ≡ ok success
unfolding programs
two_claims_pass = refl

forgets_earlier_example :
    (g' : Gathered) × (gather_unbound selectors hdd_class claim one_claim ≡ ok g')
    × (lookup (plugin_device_group selectors (volume_group hdd_class)) g'.requests
        ≡ some (own_request hdd_class claim one_claim ∷ []))
forgets_earlier_example =
    forgets_earlier selectors hdd_class claim one_claim no_cache named (unfold lookup in refl)
  where
    no_cache : text_at "carina.storage.io/cache-disk-group-name" hdd_class.parameters ≡ ""
    no_cache = unfold text_at in refl

    named : volume_group hdd_class ≢ ""
    named = unfold volume_group text_at in ground (arith, eq_iff "carina-vg-hdd" "")

cache_on_backend_run :
    (cached : Map (List PvcRequest)) × (add_cache_request selectors cached_class
        (volume_group cached_class)
        (pos (4 * 2 ^ 30))
        []
      ≡ ok (cached, plugin_device_group selectors (volume_group cached_class)))
    × (lookup "carina-vg-ssd" (
          add_request
            (plugin_device_group selectors (volume_group cached_class))
            (plugin_device_group selectors (volume_group cached_class))
            ask
            cached)
        ≡ (if plugin_device_group selectors (volume_group cached_class) == "carina-vg-ssd"
            then some (
                get_or [] "carina-vg-ssd" []
                ++ record {
                  exclusive = false;
                  request = quot (mul64 (pos (4 * 2 ^ 30)) (pos 50)) 100;
                }
                  ∷ ask
                  ∷ [])
            else lookup "carina-vg-ssd" []))
cache_on_backend_run =
    cache_on_backend selectors cached_class (pos (4 * 2 ^ 30)) (pos 50) ask [] "carina-vg-ssd" named
      (unfold run in refl) (omega arith) (omega arith)
  where
    named : text_at "carina.storage.io/cache-disk-group-name" cached_class.parameters ≢ ""
    named = unfold text_at in ground (arith, eq_iff "ssd" "")
