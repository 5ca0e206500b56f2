-- ===== src/Plugin/Requests/Claims.antt =====
-- What getPvcRequestMap keeps of the claims of a pod, read from the claims themselves.
use carina.Base.{
  String, ℤ, Bool, true, false, ◌&&◌, not, Option, none, some, List, [], ◌∷◌, Map, In, ◌≡◌, refl,
  sym, subst, ◌∙◌, ◌⊎◌, inl, inr, text_at, eq_iff, ◌==◌, if◌then◌else◌,
}
use carina.Errors.{plain, panic, Result, ok, err, fail_if, ◌>>=◌, ◌>>◌}
use carina.Config.{DiskSelectorItem, plugin_device_group, check_host_device_group}
use carina.Plugin.{Cluster, PersistentVolumeClaim, StorageClass, PersistentVolume}
use carina.Plugin.Fit.{PvcRequest}
use carina.Plugin.Keys.{csi_plugin_name, device_disk_key, volume_device_node}
use carina.Plugin.Requests.{Gathered, gather_bound, volume_group}

-- The claim of a volume and its class
abbrev pub classed :
    Cluster → Result PersistentVolumeClaim → Option (PersistentVolumeClaim × Result StorageClass)
classed cluster (err e) = none
classed cluster (ok pvc) = elim pvc.storage_class_name [
  | none ↦ none
  | some name ↦ some (pvc, cluster.get_storage_class name)
]

abbrev pub device_node : Result PersistentVolume → Option String
device_node (err e) = none
device_node (ok pv) = elim pv.csi [
  | none ↦ none
  | some attrs ↦ some (text_at volume_device_node attrs)
]

abbrev pub node_of_class :
    Cluster → Option (PersistentVolumeClaim × Result StorageClass) → Option String
node_of_class cluster none = none
node_of_class cluster (some (pvc, err e)) = none
node_of_class cluster (some (pvc, ok sc)) =
    if sc.provisioner == csi_plugin_name && pvc.bound
    then device_node (cluster.get_pv pvc.volume_name)
    else none

-- The node in the attributes of the persistent volume that a claim of this driver is bound to
unfoldable pub bound_node : Cluster → (namespace : String) → Option String → Option String
bound_node cluster namespace none = none
bound_node cluster namespace (some claim) =
    node_of_class cluster (classed cluster (cluster.get_pvc namespace claim))

abbrev pub request_of_class :
    List DiskSelectorItem
    → Option (PersistentVolumeClaim × Result StorageClass)
    → Option (String × ℤ)
request_of_class selectors none = none
request_of_class selectors (some (pvc, err e)) = none
request_of_class selectors (some (pvc, ok sc)) =
    if sc.provisioner == csi_plugin_name
      && (not pvc.bound
          && not (check_host_device_group selectors (text_at device_disk_key sc.parameters)))
    then some (plugin_device_group selectors (volume_group sc), pvc.storage_request)
    else none

-- The device group and the size of a claim of this driver that has no volume yet
unfoldable pub claim_request :
    List DiskSelectorItem → Cluster → (namespace : String) → Option String → Option (String × ℤ)
claim_request selectors cluster namespace none = none
claim_request selectors cluster namespace (some claim) =
    request_of_class selectors (classed cluster (cluster.get_pvc namespace claim))

abbrev pub pick : String → Option (String × ℤ) → Option ℤ → Option ℤ
pick key none before = before
pick key (some (group, size)) before = if group == key then some size else before

-- The size of the last claim of a device group, or what there was before
unfoldable pub last_size :
    List DiskSelectorItem
    → Cluster
    → (namespace key : String) → List (Option String)
    → Option ℤ
    → Option ℤ
unfolding claim_request
last_size selectors cluster namespace key [] before = before
last_size selectors cluster namespace key (vol ∷ volumes) before =
    last_size selectors cluster namespace key volumes
      (pick key (claim_request selectors cluster namespace vol) before)

-- A volume is on the node, or on none that is known.
abbrev pub IsOn : String → Option String → Type 0
IsOn node none = Unit
IsOn node (some n) = (n ≡ "") ⊎ (n ≡ node)

-- A request of the size is in the list.
abbrev pub Counted : Option ℤ → Option (List PvcRequest) → Type 0
Counted none rs = Unit
Counted (some size) none = ⊥
Counted (some size) (some rs) = (r : PvcRequest) × In r rs × (r.request ≡ size)

-- A node that is known stays.
abbrev pub Stays : Gathered → Gathered → Type 0
Stays g g' = (g.node_name ≡ "") ⊎ (g'.node_name ≡ g.node_name)

pub still_on :
    (o : Option String) (g g' : Gathered) → Stays g g' → IsOn g.node_name o → IsOn g'.node_name o
still_on none g g' s h = tt
still_on (some n) g g' s (inl empty) = inl empty
still_on (some n) g g' (inl none_yet) (inr same) = inl (same ∙ none_yet)
still_on (some n) g g' (inr kept) (inr same) = inr (same ∙ sym kept)

pub Stays-both : (a b c : Gathered) → Stays a b → Stays b c → Stays a c
Stays-both a b c (inl e) t = inl e
Stays-both a b c (inr e) (inl f) = inl (sym e ∙ f)
Stays-both a b c (inr e) (inr f) = inr (f ∙ e)

-- What a step does with a volume on some node
pub record Fixed (o : Option String) (g g' : Gathered) : Type 0 where
  pub stays : Stays g g'
  pub on : IsOn g'.node_name o

pub unchanged : (g : Gathered) → Fixed none g g
unchanged g = record { stays = inr refl; on = tt }

pub same_gathered : (a b : Gathered) → ok a ≡ ok b → a ≡ b
same_gathered a b h = cc h

Fixed-by :
    (node : String) (g g' : Gathered) (empty same : Bool)
    → (g.node_name == "") ≡ empty
    → (g.node_name == node) ≡ same
    → (if empty
        then ok (record g { node_name = node })
        else (fail_if (not same) (plain "pvc node clash") >> ok g))
      ≡ ok g'
    → Fixed (some node) g g'
Fixed-by node g g' true same e s h =
    subst (Fixed (some node) g) (same_gathered _ g' h)
      (record { stays = inl ((eq_iff g.node_name "").0 e); on = inr refl })
Fixed-by node g g' false true e s h =
    subst (Fixed (some node) g) (same_gathered _ g' h)
      (record { stays = inr refl; on = inr (sym ((eq_iff g.node_name node).0 s)) })
Fixed-by node g g' false false e s h = cc h

pub gather_bound-Fixed :
    (pv : PersistentVolume) (g g' : Gathered)
    → gather_bound pv g ≡ ok g'
    → Fixed (device_node (ok pv)) g g'
unfolding gather_bound
gather_bound-Fixed pv g g' h = at_csi pv.csi refl h
  where
    at_csi :
        (o : Option (Map String))
        → pv.csi ≡ o
        → ((elim o [ none ↦ err panic | some attrs ↦ ok attrs ]) >>= λ attrs.
            if g.node_name == ""
            then ok (record g { node_name = text_at volume_device_node attrs })
            else (fail_if
                  (not (g.node_name == text_at volume_device_node attrs))
                  (plain "pvc node clash")
                >> ok g))
          ≡ ok g'
        → Fixed (elim o [ none ↦ none | some attrs ↦ some (text_at volume_device_node attrs) ]) g g'
    at_csi none e k = cc k
    at_csi (some attrs) e k =
        Fixed-by (text_at volume_device_node attrs) g g' (g.node_name == "")
          (g.node_name == text_at volume_device_node attrs) refl refl k
