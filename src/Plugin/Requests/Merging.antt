-- ===== src/Plugin/Requests/Merging.antt =====
-- How the requests of several claims come together in one map.
use mathlib.Core.List.{append_assoc}
use carina.Base.{
  String, ℤ, pos, ◌≡◌, ◌≢◌, false, ◌||◌, none, some, List, [], ◌∷◌, ◌++◌, get_or, lookup, Map, ◌≤ℤ◌,
  ◌<ℤ◌, insert, lookup-insert, get_or-none, get_or-some, ap, inl, inr, Bool-cases, text_at,
  parse_int64, leb_ℤ, ltb_ℤ, mul64, quot, arith, eq_iff, eq_refl, ◌==◌, if◌then◌else◌,
}
use carina.Errors.{ok}
use carina.Config.{DiskSelectorItem, plugin_device_group, check_raw_device_group}
use carina.Plugin.{StorageClass, PersistentVolumeClaim}
use carina.Plugin.Fit.{PvcRequest}
use carina.Plugin.Keys.{
  volume_cache_disk_type, volume_cache_disk_ratio, device_disk_key, exclusivity_disk,
}
use carina.Plugin.Requests.{Gathered, add_cache_request, add_request, volume_group, gather_unbound}

str_ne : (s t : String) → s ≢ t → (s == t) ≡ false
str_ne s t h = ground (arith, eq_iff s t)

-- What a claim of this class asks of its own group.
abbrev pub own_request : StorageClass → PersistentVolumeClaim → Gathered → PvcRequest
own_request sc pvc g = record {
  exclusive = text_at exclusivity_disk sc.parameters == "true" || g.exclusive;
  request = pvc.storage_request;
}

-- A claim without a cache replaces whatever earlier claims asked of the same device group: after
-- it the group's list holds this claim's request alone.
pub forgets_earlier :
    (selectors : List DiskSelectorItem) (sc : StorageClass) (pvc : PersistentVolumeClaim)
    (g : Gathered)
    → text_at volume_cache_disk_type sc.parameters ≡ ""
    → volume_group sc ≢ ""
    → lookup "" g.requests ≡ none
    → (g' : Gathered) × (gather_unbound selectors sc pvc g ≡ ok g')
      × (lookup (plugin_device_group selectors (volume_group sc)) g'.requests
          ≡ some (own_request sc pvc g ∷ []))
unfolding gather_unbound
forgets_earlier selectors sc pvc g no_cache named none_yet = (
  record {
    requests =
        add_request (plugin_device_group selectors (volume_group sc)) "" (own_request sc pvc g)
          g.requests;
    node_name = g.node_name;
    use_raw = g.use_raw || check_raw_device_group selectors (text_at device_disk_key sc.parameters);
    exclusive = text_at exclusivity_disk sc.parameters == "true" || g.exclusive;
  },
  unfold add_cache_request in simp (no_cache, str_ne _ _ named),
  unfold add_request in simp (lookup-insert, eq_refl, get_or-none [] "" g.requests none_yet),
)

add_cache_request-eq :
    (selectors : List DiskSelectorItem) (sc : StorageClass) (size ratio : ℤ)
    (m : Map (List PvcRequest))
    → text_at volume_cache_disk_type sc.parameters ≢ ""
    → parse_int64 (text_at volume_cache_disk_ratio sc.parameters) ≡ some ratio
    → pos 1 ≤ℤ ratio
    → ratio <ℤ pos 100
    → add_cache_request selectors sc (volume_group sc) size m
      ≡ ok (
        insert
            (plugin_device_group selectors (volume_group sc))
            (get_or [] (plugin_device_group selectors (volume_group sc)) m
              ++ record { exclusive = false; request = quot (mul64 size ratio) 100 } ∷ [])
            m,
        plugin_device_group selectors (volume_group sc),
      )
unfolding add_cache_request
add_cache_request-eq selectors sc size ratio m cached_class read low high =
    simp (str_ne _ _ cached_class, read, in_range)
  where
    in_range : (ltb_ℤ ratio (pos 1) || leb_ℤ (pos 100) ratio) ≡ false
    in_range = ground arith

two_requests :
    (key k : String) (c r : PvcRequest) (m : Map (List PvcRequest))
    → lookup key (add_request k k r (insert k (get_or [] k m ++ c ∷ []) m))
      ≡ (if k == key then some (get_or [] key m ++ c ∷ r ∷ []) else lookup key m)
unfolding add_request
two_requests key k c r m = elim (Bool-cases (k == key)) [
  | inl same ↦
      simp (lookup-insert, same, inserted, append_assoc)
        (ap (λ j. some (get_or [] j m ++ c ∷ r ∷ [])) ((eq_iff k key).0 same))
  | inr differ ↦ simp (lookup-insert, differ)
]
  where
    inserted : get_or [] k (insert k (get_or [] k m ++ c ∷ []) m) ≡ get_or [] k m ++ c ∷ []
    inserted = get_or-some [] _ k _ (simp (lookup-insert, eq_refl))

-- A cache's share is asked of the device group of the volume, not of the cache group: both
-- requests end in the list of the volume's group, after the earlier ones, and no other list changes.
pub cache_on_backend :
    (selectors : List DiskSelectorItem) (sc : StorageClass) (size ratio : ℤ) (r : PvcRequest)
    (m : Map (List PvcRequest)) (key : String)
    → text_at volume_cache_disk_type sc.parameters ≢ ""
    → parse_int64 (text_at volume_cache_disk_ratio sc.parameters) ≡ some ratio
    → pos 1 ≤ℤ ratio
    → ratio <ℤ pos 100
    → (cached : Map (List PvcRequest)) × (add_cache_request selectors sc (volume_group sc) size m
        ≡ ok (cached, plugin_device_group selectors (volume_group sc)))
      × (lookup key (
            add_request
              (plugin_device_group selectors (volume_group sc))
              (plugin_device_group selectors (volume_group sc))
              r
              cached)
          ≡ (if plugin_device_group selectors (volume_group sc) == key
              then some (
                  get_or [] key m
                  ++ record { exclusive = false; request = quot (mul64 size ratio) 100 } ∷ r ∷ [])
              else lookup key m))
cache_on_backend selectors sc size ratio r m key cached_class read low high = (
  _,
  add_cache_request-eq selectors sc size ratio m cached_class read low high,
  two_requests key (plugin_device_group selectors (volume_group sc)) _ r m,
)
