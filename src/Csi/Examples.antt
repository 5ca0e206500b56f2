-- ===== src/Csi/Examples.antt =====
-- A controller over the API server of the logic volume service's examples.
use carina.Base.{
  shl30, run, String, ℕ, zero, suc, ◌==◌, if◌then◌else◌, pos, ◌≤ℤ◌, ◌≡◌, refl, arith, Bool, true,
  false, none, some, [], ◌∷◌, show_uint,
}
use carina.Errors.{plain, ok, err}
use carina.Config.{
  with_vg_prefix, has_policy, contains_string, get_device_group, check_host_device_group,
  check_raw_device_group,
}
use carina.Locks.{try_acquire, release}
use carina.Locks.Examples.{function_set}
use carina.Locks.Scope.{guarded}
use carina.Placement.{Cluster, found, have_selected_node}
use carina.Placement.Select.{select_device_group, select_multi_volume_node}
use carina.Placement.Candidates.{by_strategy}
use carina.Service.{Client}
use carina.Service.Examples.{showing, appears, ready, steady}
use carina.Service.Create as service
use carina.Service.Expand as service_expand
use carina.Service.{retried, returned, get_lv, get_node}
use carina.Service.Poll.{poll}
use carina.Service.Getter.{get_by_volume_id, from_cache}
use carina.Api.{LogicVolume, is_compatible_with}
use carina.Reconciler.Statuses.{is_code_ok}
use carina.Placement.{get_nsr, get_nodes, topology_match_node_labels, retry_get, Found, not_found}
use carina.Placement.Capacity.{get_capacity_by_node_name}
use carina.Csi.{mount, unset, CreateVolumeRequest, Volume, Services, Controller, as_returned}
use carina.Csi.Request.{
  check_capabilities, access_type_known, access_mode_supported, reason, request_size, volume_type,
  device_path, convert_request_capacity,
}
use carina.Csi.Request.Sizes.{Converted, convert_request_capacity_lem}
use carina.Csi.Bcache.{
  make, part, looked_up, test_nodes, wish_of, in_percents, value, create_both, create_bcache_volume,
}
use carina.Csi.Bcache.Unplaced.{create_bcache_volume_unplaced}
use carina.Csi.Create.{
  create_volume, create_body, create_single, scheduled_node, place, request_of, wanted_of,
  host_unplaced,
}
use carina.Csi.Create.Holds.{create_volume-Holds}
use carina.Csi.Expand.{
  ExpandVolumeRequest, controller_expand_volume, expand_host, expand_device, grown, internally,
}
use carina.Csi.Expand.Grown.{Grown, expand_device-Grown, expand_host_old_size}
use carina.Csi.Locking.{IsNeutral, create_volume-IsNeutral, expand_volume-IsNeutral}
use carina.Csi.Statuses.Creating.{create_volume-Typed}
use carina.Csi.Statuses.Expanding.{expand_volume-Typed}
use carina.Csi.Ends.{IsStatus, Anything, Ends}

abbrev cluster : Cluster
cluster = record {
  list_nodes = ok [];
  list_nodes_with = λ segments. ok [];
  cache_nsr = λ name. found (record {
    name = name;
    capacity = [];
    allocatable = ("carina.storage.io/carina-vg-ssd", pos 40) ∷ [];
    vg_groups = [];
    disks = [];
  });
  api_nsr = λ name. err (plain "unused");
  cache_lvs = λ name. ok [];
  api_lvs = ok [];
  cache_pvc = λ name_space name. found (("volume.kubernetes.io/selected-node", "n") ∷ []);
  api_pvc = λ name_space name. ok [];
  matches = λ segments labels. true;
}

abbrev services_of : Client ℕ → Services ℕ
services_of client = record {
  client = client;
  cluster = λ w. cluster;
  selectors = [];
  strategy = "spreadout";
}

abbrev request : CreateVolumeRequest
request = record {
  name = "PVC-1";
  parameters = some (("carina.storage.io/disk-group-name", "carina-vg-ssd") ∷ []);
  content_source = false;
  volume_capabilities = record { access_type = mount; access_mode = unset } ∷ [];
  required_bytes = pos 1500000000;
  limit_bytes = pos 0;
  accessibility_requirements = none;
}

convert_request_capacity_lem_example : Converted (pos 1500000000) (pos 0)
convert_request_capacity_lem_example =
    convert_request_capacity_lem (pos 1500000000) (pos 0) (omega arith, omega arith)

abbrev Locks : Type 0
Locks = String → Bool

abbrev idle : Controller Locks ℕ
idle = (record { locks = λ id. false }, (5, 0))

abbrev answered : Volume
answered = record {
  capacity_bytes = pos 2147483648;
  volume_id = "volume-pvc-1";
  volume_context =
      ("carina.storage.io/disk-group-name", "carina-vg-ssd")
      ∷ ("carina.storage.io/path", "/dev/carina-vg-ssd/volume-pvc-1")
      ∷ ("carina.storage.io/node", "n")
      ∷ ("carina.storage.io/major", "253")
      ∷ ("carina.storage.io/minor", "3")
      ∷ [];
  node = "n";
}

abbrev creating : Services ℕ
creating = services_of (showing appears [])

created_run : (create_volume creating function_set request idle).0 ≡ ok answered
unfolding create_volume create_body create_single scheduled_node place request_of make as_returned
    wanted_of host_unplaced check_capabilities access_type_known access_mode_supported request_size
    convert_request_capacity reason have_selected_node retry_get select_device_group volume_type
    device_path check_host_device_group check_raw_device_group with_vg_prefix has_policy
    get_device_group contains_string guarded try_acquire release service.create_volume
    service.wait_created service.admit service.new_lv service.judge_created get_lv retried poll run
    is_compatible_with is_code_ok show_uint
created_run = refl

create_volume-Holds_example : pos 1500000000 ≤ℤ answered.capacity_bytes
create_volume-Holds_example =
    create_volume-Holds creating function_set request idle answered (omega arith, omega arith)
      (omega arith) created_run

create_volume-Typed_example :
    Ends IsStatus Anything (create_volume creating function_set request idle).0
create_volume-Typed_example = create_volume-Typed creating function_set request idle

create_volume-IsNeutral_example :
    IsNeutral creating function_set idle (create_volume creating function_set request idle)
create_volume-IsNeutral_example = create_volume-IsNeutral creating function_set request idle

-- A volume with a cache, for which no node is selected: `a` of the topology is not used.
abbrev cached : CreateVolumeRequest
cached = record {
  name = "PVC-1-of-data";
  parameters = some (
      ("carina.storage.io/backend-disk-group-name", "carina-vg-ssd")
      ∷ ("carina.storage.io/cache-disk-group-name", "carina-vg-ssd")
      ∷ ("carina.storage.io/cache-disk-ratio", "50")
      ∷ []);
  content_source = false;
  volume_capabilities = record { access_type = mount; access_mode = unset } ∷ [];
  required_bytes = pos 2147483648;
  limit_bytes = pos 0;
  accessibility_requirements = some (record { preferred = [] ∷ []; requisite = [] });
}

abbrev two_views : String → ℕ → Found LogicVolume
two_views name zero = not_found (plain "gone")
two_views name (suc (suc zero)) =
    if name == "cache-of-data" then not_found (plain "gone") else found ready
two_views name (suc n) = found ready

abbrev caching : Services ℕ
caching = record {
  client = record (showing appears (ready ∷ [])) { cache_lv = two_views; api_lv = two_views };
  cluster = λ w. record cluster {
    list_nodes = ok (record { name = "a"; labels = some []; conditions = [] } ∷ []);
  };
  selectors = [];
  strategy = "spreadout";
}

cached_run : (v : Volume) × ((create_bcache_volume caching cached "" (pos 2) (5, 0)).0 ≡ ok v)
unfolding create_bcache_volume create_both wish_of in_percents value make part looked_up test_nodes
    as_returned contains_string select_multi_volume_node topology_match_node_labels get_nodes
    get_nsr retry_get by_strategy service.create_volume service.wait_created service.admit
    service.new_lv service.judge_created get_by_volume_id from_cache get_lv retried poll run
    is_compatible_with is_code_ok show_uint
cached_run = (_, refl)

create_bcache_volume_unplaced_example : cached_run.0.node ≡ ""
create_bcache_volume_unplaced_example =
    create_bcache_volume_unplaced caching cached (pos 2) (5, 0) cached_run.0 cached_run.1

abbrev resizing : Services ℕ
resizing = services_of steady

abbrev enlarge : ExpandVolumeRequest
enlarge = record {
  volume_id = "volume-pvc-1";
  required_bytes = pos 2147483648;
  limit_bytes = pos 0;
}

expand_volume-Typed_example :
    Ends IsStatus Anything (controller_expand_volume resizing function_set enlarge idle).0
expand_volume-Typed_example = expand_volume-Typed resizing function_set enlarge idle

expand_volume-IsNeutral_example :
    IsNeutral resizing function_set idle
      (controller_expand_volume resizing function_set enlarge idle)
expand_volume-IsNeutral_example = expand_volume-IsNeutral resizing function_set enlarge idle

grown_run :
    expand_device resizing "volume-pvc-1" ready (pos 2) (pos 1) (5, 0)
    ≡ (ok (record { capacity_bytes = pos 2147483648; job = none }), (3, 3))
unfolding expand_device grown as_returned get_capacity_by_node_name get_nsr retry_get
    service_expand.expand_volume service_expand.expand_found service_expand.update_spec_size
    service_expand.wait_expanded service_expand.judge_expanded service_expand.with_spec_size
    get_by_volume_id from_cache get_lv get_node retried returned poll run is_code_ok
grown_run = refl

expand_device-Grown_example :
    Grown resizing "volume-pvc-1" ready
      (pos 2)
      (pos 1)
      (5, 0)
      (record { capacity_bytes = pos 2147483648; job = none })
expand_device-Grown_example =
    expand_device-Grown resizing "volume-pvc-1" ready (pos 2) (pos 1) (5, 0) (3, 3) _ grown_run

host_run :
    (expand_host resizing "volume-pvc-1" (pos 2) (pos 1) (5, 0)).0
    ≡ ok (record { capacity_bytes = pos 1073741824; job = none })
unfolding expand_host internally service_expand.update_spec_size service_expand.update_current_size
    service_expand.with_spec_size service_expand.with_current_size get_by_volume_id from_cache poll
    run
host_run = refl

expand_host_old_size_run : pos 1073741824 ≡ shl30 (pos 1)
expand_host_old_size_run =
    expand_host_old_size resizing "volume-pvc-1" (pos 2) (pos 1) (5, 0)
      (record { capacity_bytes = pos 1073741824; job = none }) host_run
