-- ===== src/Plugin/Requests/Counting.antt =====
-- What the steps of getPvcRequestMap do to the lists of requests.
use carina.Base.{
  String, ℤ, Bool, true, false, not, Option, none, some, List, [], ◌∷◌, ◌++◌, Map, In, ◌≡◌, refl,
  sym, ap, subst, ◌∙◌, inl, inr, lookup, insert, get_or, text_at, lookup-insert, parse_int64, ◌==◌,
  if◌then◌else◌, mul64, quot,
}
use carina.Errors.{plain, panic, ok, err, fail_if, ◌>>=◌, ◌>>◌, >>=-eq-ok}
use carina.Config.{DiskSelectorItem, plugin_device_group}
use carina.Plugin.{PersistentVolumeClaim, StorageClass, PersistentVolume}
use carina.Plugin.Fit.{PvcRequest}
use carina.Plugin.Keys.{volume_device_node, volume_cache_disk_type, volume_cache_disk_ratio}
use carina.Plugin.Requests.{
  Gathered, gather_bound, add_cache_request, add_request, volume_group, read_ratio, gather_unbound,
}
use carina.Plugin.Requests.Claims.{pick, Counted, same_gathered}

module _ (key : String) where
  -- A step counts what was counted before, and the request of its claim.
  abbrev pub Counts : Option (String × ℤ) → Gathered → Gathered → Type 0
  Counts o g g' =
      (before : Option ℤ)
      → Counted before (lookup key g.requests)
      → Counted (pick key o before) (lookup key g'.requests)

  pub Counts-none : (g g' : Gathered) → g'.requests ≡ g.requests → Counts none g g'
  Counts-none g g' same before h = subst (λ m. Counted before (lookup key m)) (sym same) h

  pub gather_bound-requests :
      (pv : PersistentVolume) (g g' : Gathered)
      → gather_bound pv g ≡ ok g'
      → g'.requests ≡ g.requests
  unfolding gather_bound
  gather_bound-requests pv g g' h =
      let a = >>=-eq-ok (elim pv.csi [ none ↦ err panic | some attrs ↦ ok attrs ]) _ h in
      by_test (text_at volume_device_node a.0) (g.node_name == "")
        (g.node_name == text_at volume_device_node a.0) a.2
    where
      by_test :
          (node : String) (empty same : Bool)
          → (if empty
              then ok (record g { node_name = node })
              else (fail_if (not same) (plain "pvc node clash") >> ok g))
            ≡ ok g'
          → g'.requests ≡ g.requests
      by_test node true same k = ap (λ x. x.requests) (sym (same_gathered _ g' k))
      by_test node false true k = ap (λ x. x.requests) (sym (same_gathered _ g' k))
      by_test node false false k = cc k

  add_cache_request-other :
      (selectors : List DiskSelectorItem) (sc : StorageClass) (group : String) (size : ℤ)
      (m : Map (List PvcRequest)) (v : Map (List PvcRequest) × String)
      → add_cache_request selectors sc group size m ≡ ok v
      → (plugin_device_group selectors group == key) ≡ false
      → lookup key v.0 ≡ lookup key m
  unfolding add_cache_request
  add_cache_request-other selectors sc group size m v h other =
      cached (text_at volume_cache_disk_type sc.parameters == "") h
    where
      cached :
          (b : Bool)
          → (if b then ok (m, "") else (do
            ratio ← read_ratio (parse_int64 (text_at volume_cache_disk_ratio sc.parameters))
            ok (
              insert
                  (plugin_device_group selectors group)
                  (get_or [] (plugin_device_group selectors group) m
                    ++ record { exclusive = false; request = quot (mul64 size ratio) 100 } ∷ [])
                  m,
              plugin_device_group selectors group,
            )))
            ≡ ok v
          → lookup key v.0 ≡ lookup key m
      cached true k = ap (λ x. lookup key x) (sym (pair_of k))
        where
          pair_of : ok (m, "") ≡ ok v → m ≡ v.0
          pair_of e = cc e
      cached false k =
          let a =
            >>=-eq-ok (read_ratio (parse_int64 (text_at volume_cache_disk_ratio sc.parameters))) _
              k in
          first_of _ _ a.2 ∙ lookup-insert (plugin_device_group selectors group) key _ m ∙ rw other
        where
          first_of :
              (m' : Map (List PvcRequest)) (s : String)
              → ok (m', s) ≡ ok v
              → lookup key v.0 ≡ lookup key m'
          first_of m' s e = ap (λ x. lookup key x) (pair_of e)
            where
              pair_of : ok (m', s) ≡ ok v → v.0 ≡ m'
              pair_of e = cc e

  in_last : (xs : List PvcRequest) (r : PvcRequest) → In r (xs ++ r ∷ [])
  in_last [] r = inl refl
  in_last (x ∷ xs) r = inr (in_last xs r)

  -- The list of a group after its claim
  added :
      (group cache_group : String) (r : PvcRequest) (m cached : Map (List PvcRequest))
      (before : Option ℤ) (same : Bool)
      → (group == key) ≡ same
      → ((group == key) ≡ false → lookup key cached ≡ lookup key m)
      → Counted before (lookup key m)
      → Counted
          (if same then some r.request else before)
          (lookup key (add_request group cache_group r cached))
  unfolding add_request
  added group cache_group r m cached before true e others h =
      subst (Counted (some r.request))
        (sym (
          lookup-insert group key (get_or [] cache_group cached ++ r ∷ []) cached
          ∙ ap (λ b. if b then some (get_or [] cache_group cached ++ r ∷ []) else lookup key cached)
              e))
        (r, in_last (get_or [] cache_group cached) r, refl)
  added group cache_group r m cached before false e others h =
      subst (Counted before)
        (sym (
          lookup-insert group key (get_or [] cache_group cached ++ r ∷ []) cached
          ∙ ap (λ b. if b then some (get_or [] cache_group cached ++ r ∷ []) else lookup key cached)
              e
          ∙ others e))
        h

  module _ (selectors : List DiskSelectorItem) (sc : StorageClass) (pvc : PersistentVolumeClaim)
      (g : Gathered) where
    pub gather_unbound-Counts :
        (g' : Gathered)
        → gather_unbound selectors sc pvc g ≡ ok g'
        → (g'.node_name ≡ g.node_name)
          × Counts
              (some (plugin_device_group selectors (volume_group sc), pvc.storage_request))
              g
              g'
    unfolding gather_unbound
    gather_unbound-Counts g' h =
        let cached =
          >>=-eq-ok
            (add_cache_request selectors sc (volume_group sc) pvc.storage_request g.requests) _ h in
        let checked = >>=-eq-ok (fail_if (volume_group sc == "") _) _ cached.2 in
        let same = same_gathered _ g' checked.2 in
        (
          ap (λ x. x.node_name) (sym same),
          λ before counted.
              subst
                (λ x.
                  Counted
                    (pick key
                      (some (plugin_device_group selectors (volume_group sc), pvc.storage_request))
                      before)
                    (lookup key x.requests))
                same
                (added (plugin_device_group selectors (volume_group sc)) cached.0.1 _ g.requests
                  cached.0.0 before _ refl
                  (add_cache_request-other selectors sc (volume_group sc) pvc.storage_request
                    g.requests cached.0 cached.1)
                  counted),
        )
