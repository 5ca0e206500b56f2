-- ===== src/Csi/Create.antt =====
-- CreateVolume of controller.go.
pub mod Holds
use carina.Base.{
  String, ℕ, ℤ, Bool, true, false, ◌&&◌, ◌||◌, not, Option, none, some, List, [], ◌∷◌, Map, text_at,
  insert, shl30, to_lower, show_uint, ◌<>◌, ◌==◌, if◌then◌else◌,
}
use carina.Errors.{
  Error, plain, status, panic, message, aborted, failed_precondition, internal, invalid_argument,
  Result, ok, err, fail_if,
}
use carina.Config.{check_host_device_group, get_device_group}
use carina.Locks.{StringSet}
use carina.Locks.Scope.{guarded}
use carina.Placement.{exclusivity_disk, have_selected_node}
use carina.Placement.Candidates.{Wanted, raw_volume_type}
use carina.Placement.Select.{select_device_group, select_node}
use carina.Reconciler.{volume_manager_type}
use carina.Service.{Timed}
use carina.Service.Create.{Request, Device}
use carina.Service.Create as service
use carina.Volume.{Op, ◌>>=◌, ◌>>◌, read, give}
use carina.Csi.{
  CreateVolumeRequest, Volume, Services, Controller, parameters, if_empty, fails_with,
  internal_error, as_returned,
}
use carina.Csi.Request.{
  device_disk_key, volume_cache_disk_ratio, host_volume_type, reason, instead, request_size,
  check_capabilities, volume_type, device_path,
}
use carina.Csi.Bcache.{create_bcache_volume, make, invalid}

module _ {W : Type 0} (s : Services W) where
  -- `s.nodeService.SelectDeviceGroup(...)` where the scheduler has chosen the node
  abbrev pub grouped : String → Result String → Result (String × String)
  grouped node_name (err e) = err (reason internal "failed to get device group " e)
  grouped node_name (ok group) =
      if group == ""
      then err (status internal "can not find any device group")
      else ok (node_name, group)

  -- `s.nodeService.SelectNode(...)` where it has not
  abbrev pub checked : String × String → Result (String × String)
  checked (node_name, group) =
      if node_name == ""
      then err (status internal "can not find any node")
      else if group == ""
      then err (status internal "can not find any device group")
      else ok (node_name, group)

  abbrev pub chosen : Result (String × String) → Result (String × String)
  chosen (err e) = err (reason internal "failed to select node,  err: " e)
  chosen (ok p) = checked p

  -- The node and the device group of the volume
  unfoldable pub place :
      CreateVolumeRequest → Wanted → (node_name : String) → W → Result (String × String)
  place r wanted node_name w =
      if node_name == ""
      then chosen
          (select_node s.selectors s.strategy (s.cluster w) wanted r.accessibility_requirements)
      else if wanted.volume_type == host_volume_type
      then ok (node_name, wanted.sc_device_group)
      else grouped node_name
          (select_device_group s.selectors s.strategy (s.cluster w) wanted node_name)

  annotations_of : Wanted → Map String
  annotations_of wanted =
      (volume_manager_type, wanted.volume_type)
      ∷ (if wanted.volume_type == raw_volume_type
          then (exclusivity_disk, if wanted.exclusivity_disk then "true" else "false") ∷ []
          else [])

  -- An assignment to an entry of a nil map panics.
  abbrev pub with_context :
      Option (Map String) → (Map String → Map String) → (Map String → Volume) → Result Volume
  with_context none set volume = err panic
  with_context (some entries) set volume = ok (volume (set entries))

  abbrev pub response :
      CreateVolumeRequest → (group node path : String) → ℤ → Device → Result Volume
  response r group node path request_gb (volume_id, (major, minor)) =
      with_context r.parameters
        (λ entries. insert "carina.storage.io/minor" (show_uint minor) (
          insert "carina.storage.io/major" (show_uint major) (
            insert "carina.storage.io/node" node
              (insert "carina.storage.io/path" path (insert device_disk_key group entries)))))
        (λ entries. record {
          capacity_bytes = shl30 request_gb;
          volume_id = volume_id;
          volume_context = entries;
          node = node;
        })

  unfoldable pub request_of : CreateVolumeRequest → Wanted → (pv_name node group : String) → Request
  unfolding annotations_of
  request_of r wanted pv_name node group = record {
    name_space = text_at "csi.storage.k8s.io/pvc/namespace" (parameters r);
    pvc = text_at "csi.storage.k8s.io/pvc/name" (parameters r);
    node = node;
    device_group = group;
    pv_name = pv_name;
    request_gb = wanted.request_gb;
    owner = "";
    annotations = annotations_of wanted;
  }

  -- From the choice of node and group on
  unfoldable pub create_single :
      CreateVolumeRequest → Wanted → (pv_name path node_name : String) → Op (Timed W) Volume
  unfolding place request_of make
  create_single r wanted pv_name path node_name = do
    placed ← read (λ t. place r wanted node_name t.1)
    device ← make s as_returned (request_of r wanted pv_name placed.0 placed.1)
    give (response r placed.1 placed.0 path wanted.request_gb device)

  unfoldable pub wanted_of : CreateVolumeRequest → (device_group : String) → ℤ → Wanted
  wanted_of r device_group request_gb = record {
    request_gb = request_gb;
    volume_type = volume_type s.selectors device_group;
    sc_device_group = device_group;
    exclusivity_disk =
        volume_type s.selectors device_group == raw_volume_type
        && text_at exclusivity_disk (parameters r) == "true";
  }

  -- A host volume needs the node of the scheduler.
  unfoldable pub host_unplaced : (device_group node_name : String) → Bool
  host_unplaced device_group node_name =
      check_host_device_group s.selectors device_group
      && (not (device_group == "") && node_name == "")

  abbrev pub by_kind :
      CreateVolumeRequest → Wanted → (pv_name node_name : String) → Op (Timed W) Volume
  by_kind r wanted pv_name node_name =
      let ratio = text_at volume_cache_disk_ratio (parameters r) in
      if not (ratio == "") && not (ratio == "0")
      then create_bcache_volume s r node_name wanted.request_gb
      else create_single r wanted pv_name (device_path s.selectors wanted.sc_device_group pv_name)
          node_name

  -- The node that the scheduler has chosen for the claim
  unfoldable pub scheduled_node : CreateVolumeRequest → W → Result String
  unfolding instead
  scheduled_node r w =
      let name_space = text_at "csi.storage.k8s.io/pvc/namespace" (parameters r) in
      let pvc = text_at "csi.storage.k8s.io/pvc/name" (parameters r) in
      fails_with (instead internal ("can not find pvc " <> (name_space <> (" " <> pvc))))
        (have_selected_node (s.cluster w) name_space pvc)

  -- Under the lock of the volume
  unfoldable pub create_body :
      CreateVolumeRequest → (pv_name device_group : String) → Op (Timed W) Volume
  unfolding create_single wanted_of host_unplaced scheduled_node
  create_body r pv_name device_group = do
    give (check_capabilities r.volume_capabilities)
    request_gb ← give (request_size r.required_bytes r.limit_bytes)
    node_name ← read (λ t. scheduled_node r t.1)
    give (
        fail_if (host_unplaced device_group node_name)
          (status failed_precondition "can not support host not select node"))
    by_kind r (wanted_of r device_group request_gb) pv_name node_name

  abbrev pub busy : String → Error
  busy pv_name =
      status aborted ("an operation with the given volume " <> (pv_name <> " already exists"))

  unfoldable pub create_volume :
      {S : Type 0}
      → StringSet S
      → CreateVolumeRequest
      → Controller S W
      → Result Volume × Controller S W
  unfolding create_body
  create_volume sets r c =
      if r.name == ""
      then (invalid "invalid name", c)
      else if r.content_source
      then (invalid "volume_content_source not supported", c)
      else if_empty r.volume_capabilities (invalid "no volume capabilities are provided", c)
          (guarded sets (to_lower r.name) (err (busy (to_lower r.name)))
            (create_body r (to_lower r.name)
              (get_device_group s.selectors (text_at device_disk_key (parameters r))))
            c)
