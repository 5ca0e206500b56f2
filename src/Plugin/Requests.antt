-- ===== src/Plugin/Requests.antt =====
-- `getPvcRequestMap` of scheduler/schedulerplugin/localstorage/storage-plugins.go: what the claims of
-- a pod ask for, by device group, and the node that they are bound to.
pub mod Merging
pub mod Claims
pub mod Counting
pub mod Kept
use carina.Base.{
  String, ℤ, pos, Bool, true, false, ◌||◌, not, Option, none, some, List, [], ◌∷◌, ◌++◌, Map,
  get_or, insert, text_at, parse_int64, ltb_ℤ, leb_ℤ, mul64, quot, ◌<>◌, ◌==◌, if◌then◌else◌,
}
use carina.Errors.{Error, plain, panic, Result, ok, err, fail_if, ◌>>=◌, ◌>>◌}
use carina.Config.{
  DiskSelectorItem, check_raw_device_group, check_host_device_group, plugin_device_group,
}
use carina.Plugin.{Cluster, Pod, PersistentVolumeClaim, StorageClass, PersistentVolume}
use carina.Plugin.Fit.{PvcRequest}
use carina.Plugin.Keys.{
  csi_plugin_name, device_disk_key, volume_device_node, volume_backend_disk_type,
  volume_cache_disk_type, volume_cache_disk_ratio, exclusivity_disk,
}

-- The variables of the loop.
pub record Gathered : Type 0 where
  pub requests : Map (List PvcRequest)
  pub node_name : String
  pub use_raw : Bool
  pub exclusive : Bool

abbrev pub nothing_gathered : Gathered
nothing_gathered = record { requests = []; node_name = ""; use_raw = false; exclusive = false }

abbrev attributes : PersistentVolume → Result (Map String)
attributes pv = elim pv.csi [ none ↦ err panic | some attrs ↦ ok attrs ]

-- A bound claim fixes the node.
unfoldable gather_bound : PersistentVolume → Gathered → Result Gathered
gather_bound pv g = do
  attrs ← attributes pv
  let node = text_at volume_device_node attrs
  if g.node_name == ""
      then ok (record g { node_name = node })
      else (do fail_if (not (g.node_name == node)) (plain "pvc node clash"); ok g)

abbrev bad_ratio : Error
bad_ratio = plain "carina.storage.io/cache-disk-ratio should be in 1-100"

abbrev pub read_ratio : Option ℤ → Result ℤ
read_ratio none = err bad_ratio
read_ratio (some ratio) = do
  fail_if (ltb_ℤ ratio (pos 1) || leb_ℤ (pos 100) ratio) bad_ratio
  ok ratio

-- The request for the cache, and the key that it goes under ("" without a cache). The key is
-- made from the group of the volume, not from the cache group.
unfoldable pub add_cache_request :
    List DiskSelectorItem
    → StorageClass
    → String
    → ℤ
    → Map (List PvcRequest)
    → Result (Map (List PvcRequest) × String)
add_cache_request selectors sc device_group size requests =
    if text_at volume_cache_disk_type sc.parameters == "" then ok (requests, "") else do
      ratio ← read_ratio (parse_int64 (text_at volume_cache_disk_ratio sc.parameters))
      let cache_group = plugin_device_group selectors device_group
      let cache : PvcRequest = record { exclusive = false; request = quot (mul64 size ratio) 100 }
      ok (insert cache_group (get_or [] cache_group requests ++ cache ∷ []) requests, cache_group)

-- The request for the volume itself: the list of the group becomes that of the cache's group and
-- this request.
unfoldable pub add_request :
    String → String → PvcRequest → Map (List PvcRequest) → Map (List PvcRequest)
add_request device_group cache_group r requests =
    insert device_group (get_or [] cache_group requests ++ r ∷ []) requests

unfoldable pub volume_group : StorageClass → String
volume_group sc =
    let group = text_at device_disk_key sc.parameters in
    if group == "" then text_at volume_backend_disk_type sc.parameters else group

-- A claim of this driver that is not bound and not on a host path
unfoldable pub gather_unbound :
    List DiskSelectorItem → StorageClass → PersistentVolumeClaim → Gathered → Result Gathered
unfolding add_cache_request add_request volume_group
gather_unbound selectors sc pvc g = do
  let group = text_at device_disk_key sc.parameters
  let size = pvc.storage_request
  let exclusive = text_at exclusivity_disk sc.parameters == "true" || g.exclusive
  (cached, cache_group) ← add_cache_request selectors sc (volume_group sc) size g.requests
  fail_if (volume_group sc == "") (plain ("not set deviceGroup in storageClass " <> sc.name))
  ok (record {
    requests =
        add_request (plugin_device_group selectors (volume_group sc)) cache_group
          (record { exclusive = exclusive; request = size }) cached;
    node_name = g.node_name;
    use_raw = g.use_raw || check_raw_device_group selectors group;
    exclusive = exclusive;
  })

gather_claim :
    List DiskSelectorItem
    → Cluster
    → PersistentVolumeClaim
    → StorageClass
    → Gathered
    → Result Gathered
unfolding gather_bound gather_unbound
gather_claim selectors cluster pvc sc g =
    if not (sc.provisioner == csi_plugin_name)
    then ok g
    else if pvc.bound
    then (do pv ← cluster.get_pv pvc.volume_name; gather_bound pv g)
    else if check_host_device_group selectors (text_at device_disk_key sc.parameters)
    then ok g
    else gather_unbound selectors sc pvc g

-- One turn of the loop over `pod.Spec.Volumes`.
unfoldable pub gather_volume :
    List DiskSelectorItem → Cluster → String → Option String → Gathered → Result Gathered
unfolding gather_claim
gather_volume selectors cluster namespace none g = ok g
gather_volume selectors cluster namespace (some claim) g = do
  pvc ← cluster.get_pvc namespace claim
  elim pvc.storage_class_name [
    | none ↦ ok g
    | some name ↦ do sc ← cluster.get_storage_class name; gather_claim selectors cluster pvc sc g
  ]

gather_volumes :
    List DiskSelectorItem → Cluster → String → List (Option String) → Gathered → Result Gathered
unfolding gather_volume
gather_volumes selectors cluster namespace [] g = ok g
gather_volumes selectors cluster namespace (vol ∷ volumes) g = do
  g' ← gather_volume selectors cluster namespace vol g
  gather_volumes selectors cluster namespace volumes g'

-- On an error the caller uses nothing but the error.
unfoldable pub get_pvc_request_map : List DiskSelectorItem → Cluster → Pod → Result Gathered
unfolding gather_volumes
get_pvc_request_map selectors cluster pod =
    gather_volumes selectors cluster pod.namespace pod.volumes nothing_gathered
