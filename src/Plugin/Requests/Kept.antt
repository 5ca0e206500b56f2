-- ===== src/Plugin/Requests/Kept.antt =====
-- The steps of getPvcRequestMap, and what they keep.
use carina.Base.{
  String, ℤ, Bool, true, false, ◌&&◌, not, Option, none, some, List, [], ◌∷◌, All, ◌≡◌, refl, subst,
  inr, lookup, text_at, ◌==◌, if◌then◌else◌,
}
use carina.Errors.{Result, ok, err, ◌>>=◌, >>=-eq-ok}
use carina.Config.{DiskSelectorItem, plugin_device_group, check_host_device_group}
use carina.Plugin.{Cluster, Pod, PersistentVolumeClaim, StorageClass, PersistentVolume}
use carina.Plugin.Keys.{csi_plugin_name, device_disk_key}
use carina.Plugin.Requests.{
  Gathered, nothing_gathered, gather_bound, volume_group, gather_unbound, gather_claim,
  gather_volume, gather_volumes, get_pvc_request_map,
}
use carina.Plugin.Requests.Claims.{
  Stays, classed, device_node, node_of_class, bound_node, request_of_class, claim_request,
  last_size, IsOn, Counted, Fixed, unchanged, still_on, Stays-both, gather_bound-Fixed,
  same_gathered,
}
use carina.Plugin.Requests.Counting.{
  Counts, Counts-none, gather_bound-requests, gather_unbound-Counts,
}

-- A volume is counted, and it is on the node.
record Step (key : String) (node : Option String) (request : Option (String × ℤ)) (g g' : Gathered)
    : Type 0 where
  pub fixed : Fixed node g g'
  pub counts : Counts key request g g'

Step-skipped : (key : String) (g g' : Gathered) → ok g ≡ ok g' → Step key none none g g'
Step-skipped key g g' h =
    subst (Step key none none g) (same_gathered g g' h)
      (record { fixed = unchanged g; counts = λ before counted. counted })

module _ (key : String) (selectors : List DiskSelectorItem) (cluster : Cluster) where
  bound-Step :
      (volume_name : String) (g g' : Gathered)
      → (cluster.get_pv volume_name >>= λ pv. gather_bound pv g) ≡ ok g'
      → Step key (device_node (cluster.get_pv volume_name)) none g g'
  bound-Step volume_name g g' h = of_pv (cluster.get_pv volume_name) h
    where
      of_pv :
          (r : Result PersistentVolume)
          → (r >>= λ pv. gather_bound pv g) ≡ ok g'
          → Step key (device_node r) none g g'
      of_pv (err e) k = cc k
      of_pv (ok pv) k = record {
        fixed = gather_bound-Fixed pv g g' k;
        counts = Counts-none key g g' (gather_bound-requests key pv g g' k);
      }

  unbound-Step :
      (sc : StorageClass) (pvc : PersistentVolumeClaim) (g g' : Gathered)
      → gather_unbound selectors sc pvc g ≡ ok g'
      → Step key none
          (some (plugin_device_group selectors (volume_group sc), pvc.storage_request))
          g
          g'
  unbound-Step sc pvc g g' h =
      let counts = gather_unbound-Counts key selectors sc pvc g g' h in
      record { fixed = record { stays = inr counts.0; on = tt }; counts = counts.1 }

  -- The tests of a claim of some class
  tested :
      (sc : StorageClass) (pvc : PersistentVolumeClaim) (g g' : Gathered) (ours bound host : Bool)
      → (if not ours
          then ok g
          else if bound
          then (cluster.get_pv pvc.volume_name >>= λ pv. gather_bound pv g)
          else if host
          then ok g
          else gather_unbound selectors sc pvc g)
        ≡ ok g'
      → Step key
          (if ours && bound then device_node (cluster.get_pv pvc.volume_name) else none)
          (if ours && (not bound && not host)
            then some (plugin_device_group selectors (volume_group sc), pvc.storage_request)
            else none)
          g
          g'
  tested sc pvc g g' false bound host h = Step-skipped key g g' h
  tested sc pvc g g' true true host h = bound-Step pvc.volume_name g g' h
  tested sc pvc g g' true false true h = Step-skipped key g g' h
  tested sc pvc g g' true false false h = unbound-Step sc pvc g g' h

  classed-Step :
      (pvc : PersistentVolumeClaim) (r : Result StorageClass) (g g' : Gathered)
      → (r >>= λ sc. gather_claim selectors cluster pvc sc g) ≡ ok g'
      → Step key
          (node_of_class cluster (some (pvc, r)))
          (request_of_class selectors (some (pvc, r)))
          g
          g'
  unfolding gather_claim
  classed-Step pvc (err e) g g' h = cc h
  classed-Step pvc (ok sc) g g' h =
      tested sc pvc g g' (sc.provisioner == csi_plugin_name) pvc.bound
        (check_host_device_group selectors (text_at device_disk_key sc.parameters)) h

  gather_volume-Step :
      (namespace : String) (vol : Option String) (g g' : Gathered)
      → gather_volume selectors cluster namespace vol g ≡ ok g'
      → Step key
          (bound_node cluster namespace vol)
          (claim_request selectors cluster namespace vol)
          g
          g'
  unfolding gather_volume bound_node claim_request
  gather_volume-Step namespace none g g' h = Step-skipped key g g' h
  gather_volume-Step namespace (some claim) g g' h = of_claim (cluster.get_pvc namespace claim) h
    where
      with_class :
          (pvc : PersistentVolumeClaim) (o : Option String)
          → (elim o [
            | none ↦ ok g
            | some name ↦
                cluster.get_storage_class name >>= λ sc. gather_claim selectors cluster pvc sc g
          ])
            ≡ ok g'
          → Step key
              (node_of_class cluster
                (elim o [ none ↦ none | some name ↦ some (pvc, cluster.get_storage_class name) ]))
              (request_of_class selectors
                (elim o [ none ↦ none | some name ↦ some (pvc, cluster.get_storage_class name) ]))
              g
              g'
      with_class pvc none k = Step-skipped key g g' k
      with_class pvc (some name) k = classed-Step pvc (cluster.get_storage_class name) g g' k

      of_claim :
          (r : Result PersistentVolumeClaim)
          → (r >>= λ pvc. elim pvc.storage_class_name [
            | none ↦ ok g
            | some name ↦
                cluster.get_storage_class name >>= λ sc. gather_claim selectors cluster pvc sc g
          ])
            ≡ ok g'
          → Step key
              (node_of_class cluster (classed cluster r))
              (request_of_class selectors (classed cluster r))
              g
              g'
      of_claim (err e) k = cc k
      of_claim (ok pvc) k = with_class pvc pvc.storage_class_name k

  -- The loop
  record Loop (namespace : String) (volumes : List (Option String)) (g g' : Gathered) : Type 0 where
    pub stays : Stays g g'
    pub on : All (λ vol. IsOn g'.node_name (bound_node cluster namespace vol)) volumes
    pub counts :
        (before : Option ℤ)
        → Counted before (lookup key g.requests)
        → Counted
            (last_size selectors cluster namespace key volumes before)
            (lookup key g'.requests)

  gather_volumes-Loop :
      (namespace : String) (volumes : List (Option String)) (g g' : Gathered)
      → gather_volumes selectors cluster namespace volumes g ≡ ok g'
      → Loop namespace volumes g g'
  unfolding gather_volumes last_size
  gather_volumes-Loop namespace [] g g' h =
      subst (Loop namespace [] g) (same_gathered g g' h)
        (record { stays = inr refl; on = tt; counts = λ before counted. counted })
  gather_volumes-Loop namespace (vol ∷ volumes) g g' h =
      let first = >>=-eq-ok (gather_volume selectors cluster namespace vol g) _ h in
      let step = gather_volume-Step namespace vol g first.0 first.1 in
      let later = gather_volumes-Loop namespace volumes first.0 g' first.2 in
      record {
        stays = Stays-both g first.0 g' step.fixed.stays later.stays;
        on = (
          still_on (bound_node cluster namespace vol) first.0 g' later.stays step.fixed.on,
          later.on,
        );
        counts = λ before counted. later.counts _ (step.counts before counted);
      }

  pub get_pvc_request_map-Kept :
      (pod : Pod) (g : Gathered)
      → get_pvc_request_map selectors cluster pod ≡ ok g
      → All (λ vol. IsOn g.node_name (bound_node cluster pod.namespace vol)) pod.volumes
        × Counted
            (last_size selectors cluster pod.namespace key pod.volumes none)
            (lookup key g.requests)
  unfolding get_pvc_request_map
  get_pvc_request_map-Kept pod g h =
      let loop = gather_volumes-Loop pod.namespace pod.volumes nothing_gathered g h in
      (loop.on, loop.counts none tt)
