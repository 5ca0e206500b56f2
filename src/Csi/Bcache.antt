-- ===== src/Csi/Bcache.antt =====
-- CreateBcacheVolume of controller.go: a backend volume and a cache volume that it owns.
pub mod Unplaced
use carina.Base.{
  String, ℕ, ℤ, pos, Bool, true, false, ◌&&◌, ◌||◌, not, Option, none, some, List, [], ◌∷◌, Map,
  text_at, insert, shl30, mul64, quot, ltb_ℤ, leb_ℤ, slice_from, parse_int64, to_lower, show_uint,
  show_int, ◌<>◌, ◌==◌, if◌then◌else◌,
}
use carina.Errors.{
  Error, plain, status, panic, Code, already_exists, not_found as not_found_code,
  failed_precondition, internal, invalid_argument, message, Result, ok, err,
}
use carina.Api.{LogicVolume}
use carina.Config.{contains_string}
use carina.Placement.{Found, found, not_found, failed}
use carina.Placement.Candidates.{lvm_volume_type}
use carina.Placement.Select.{select_multi_volume_node}
use carina.Reconciler.{volume_manager_type}
use carina.Service.{Timed}
use carina.Service.Getter.{get_by_volume_id}
use carina.Service.Create.{Request, Device}
use carina.Service.Create as service
use carina.Volume.{Op, ◌>>=◌, ◌>>◌, read, give}
use carina.Csi.{
  CreateVolumeRequest, Volume, Services, parameters, fails_with, internal_error, as_returned,
}
use carina.Csi.Request.{reason, device_disk_key, volume_cache_disk_ratio}

abbrev pub invalid {ℓ} : {A : Type ℓ} → String → Result A
invalid text = err (status invalid_argument text)

unfoldable pub precondition {ℓ} : {A : Type ℓ} → String → Result A
precondition text = err (status failed_precondition text)

abbrev pub backend_key : String
backend_key = "carina.storage.io/backend-disk-group-name"

abbrev pub cache_key : String
cache_key = "carina.storage.io/cache-disk-group-name"

abbrev pub policy_key : String
policy_key = "carina.storage.io/cache-policy"

-- What the parameters ask for; the groups are lower-cased.
pub record Wish : Type 0 where
  pub backend_group : String
  pub cache_group : String
  pub policy : String
  pub backend_name : String
  pub cache_name : String
  pub backend_gb : ℤ
  pub cache_gb : ℤ

unfoldable pub in_percents : Option ℤ → Bool
in_percents none = false
in_percents (some ratio) = not (ltb_ℤ ratio (pos 1)) && ltb_ℤ ratio (pos 100)

-- The value of the ratio where it is one
unfoldable pub value : Option ℤ → ℤ
value none = pos 0
value (some ratio) = ratio

-- `pvName[6:]` panics for a shorter name.
abbrev pub with_cache_name : Option String → (String → Wish) → Result Wish
with_cache_name none wish = err panic
with_cache_name (some rest) wish = ok (wish ("cache-" <> rest))

unfoldable pub wish_of : CreateVolumeRequest → (pv_name : String) → ℤ → Result Wish
unfolding in_percents value precondition
wish_of r pv_name request_gb =
    let given = parameters r in
    let ratio = text_at volume_cache_disk_ratio given in
    let cache_gb = quot (mul64 request_gb (value (parse_int64 ratio))) 100 in
    if text_at backend_key given == ""
    then precondition (backend_key <> (" " <> (text_at backend_key given <> ", can not be empty")))
    else if text_at cache_key given == ""
    then precondition (cache_key <> (" " <> (text_at cache_key given <> ", can not be empty")))
    else if not (in_percents (parse_int64 ratio))
    then precondition (volume_cache_disk_ratio <> (" " <> (ratio <> ", Should be in 1-100")))
    else if leb_ℤ cache_gb (pos 0) || leb_ℤ request_gb (pos 0)
    then precondition (
        "pvc request capacity and cache ratio are inappropriate, cacheRequestGb is "
        <> show_int cache_gb)
    else with_cache_name (slice_from 6 pv_name) (λ cache_name. record {
      backend_group = to_lower (text_at backend_key given);
      cache_group = to_lower (text_at cache_key given);
      policy =
          if contains_string ("writethrough" ∷ "writeback" ∷ "writearound" ∷ [])
            (text_at policy_key given)
          then text_at policy_key given
          else "writethrough";
      backend_name = pv_name;
      cache_name = cache_name;
      backend_gb = request_gb;
      cache_gb = cache_gb;
    })

-- The volume exists already: what was returned with the error is used.
abbrev pub tolerated : Result Device → Result Device
tolerated (ok device) = ok device
tolerated (err (status already_exists m)) = ok ("", (0, 0))
tolerated (err e) = as_returned (err e)

module _ {W : Type 0} (s : Services W) where
  -- `nodeName, err := s.nodeService.SelectMultiVolumeNode(...)` declares a new variable, so what is
  -- selected is tested and then lost.
  abbrev pub tested : Result String → Result (Unit {0})
  tested (err e) = err (reason internal "failed to select node, err: " e)
  tested (ok node) = if node == "" then err (status internal "can not find any node") else ok tt

  unfoldable pub test_nodes :
      CreateVolumeRequest → Wish → (node_name : String) → W → Result (Unit {0})
  test_nodes r wish node_name w =
      if node_name == ""
      then tested (
          select_multi_volume_node s.selectors s.strategy (s.cluster w) wish.backend_group
            wish.cache_group wish.backend_gb wish.cache_gb r.accessibility_requirements)
      else ok tt

  annotations_of : CreateVolumeRequest → Map String
  annotations_of r =
      (volume_cache_disk_ratio, text_at volume_cache_disk_ratio (parameters r))
      ∷ (volume_manager_type, lvm_volume_type)
      ∷ []

  unfoldable pub part :
      CreateVolumeRequest → (node_name group pv_name : String) → ℤ → (owner : String) → Request
  unfolding annotations_of
  part r node_name group pv_name request_gb owner = record {
    name_space = text_at "csi.storage.k8s.io/pvc/namespace" (parameters r);
    pvc = text_at "csi.storage.k8s.io/pvc/name" (parameters r);
    node = node_name;
    device_group = group;
    pv_name = pv_name;
    request_gb = request_gb;
    owner = owner;
    annotations = annotations_of r;
  }

  -- GetLogicVolumeByVolumeId and its errors
  unfoldable pub looked_up : String → Found LogicVolume → Result LogicVolume
  looked_up volume_id (found lv) = ok lv
  looked_up volume_id (failed e) = err (internal_error e)
  looked_up volume_id (not_found e) =
      err (status not_found_code ("LogicalVolume for volume id " <> (volume_id <> " is not found")))

  abbrev context_of :
      Wish → (node_name ratio : String) → (backend cache : Device) → Map String → Map String
  context_of wish node_name ratio (backend_id, (major, minor))
        (cache_id, (cache_major, cache_minor)) entries =
      insert "carina.storage.io/cache-volume-id" cache_id (
        insert volume_cache_disk_ratio ratio (
          insert policy_key wish.policy (
            insert "carina.storage.io/cache/minor" (show_uint cache_minor) (
              insert "carina.storage.io/cache/major" (show_uint cache_major) (
                insert "carina.storage.io/cache/path"
                  ("/dev/" <> (wish.cache_group <> ("/volume-" <> wish.cache_name)))
                  (insert cache_key wish.cache_group (
                    insert "carina.storage.io/minor" (show_uint minor) (
                      insert "carina.storage.io/major" (show_uint major) (
                        insert "carina.storage.io/node" node_name (
                          insert "carina.storage.io/path"
                            ("/dev/" <> (wish.backend_group <> ("/volume-" <> wish.backend_name)))
                            (insert device_disk_key wish.backend_group entries)))))))))))

  abbrev bcache_response :
      CreateVolumeRequest → Wish → (node_name : String) → (backend cache : Device) → Volume
  bcache_response r wish node_name backend cache = record {
    capacity_bytes = shl30 wish.backend_gb;
    volume_id = backend.0;
    volume_context =
        context_of wish node_name (text_at volume_cache_disk_ratio (parameters r)) backend cache
          (parameters r);
    node = node_name;
  }

  -- `s.lvService.CreateVolume(...)`, and what becomes of its error
  unfoldable pub make : (Result Device → Result Device) → Request → Op (Timed W) Device
  make judge request t =
      let made = service.create_volume s.client request t in (judge made.0, made.1)

  unfoldable pub create_both :
      CreateVolumeRequest → Wish → (node_name : String) → Op (Timed W) Volume
  unfolding part looked_up make
  create_both r wish node_name = do
    backend ←
        make tolerated (part r node_name wish.backend_group wish.backend_name wish.backend_gb "")
    lv ← read (λ t. looked_up backend.0 (get_by_volume_id s.client backend.0 t.1))
    cache ←
        make as_returned (part r node_name wish.cache_group wish.cache_name wish.cache_gb lv.name)
    give (ok (bcache_response r wish node_name backend cache))

  unfoldable pub create_bcache_volume :
      CreateVolumeRequest → (node_name : String) → ℤ → Op (Timed W) Volume
  unfolding wish_of test_nodes create_both
  create_bcache_volume r node_name request_gb = do
    wish ←
        give (
          if r.name == ""
          then invalid "invalid pv name"
          else wish_of r (to_lower r.name) request_gb)
    read (λ t. test_nodes r wish node_name t.1)
    create_both r wish node_name
