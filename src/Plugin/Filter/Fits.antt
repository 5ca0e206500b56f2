-- ===== src/Plugin/Filter/Fits.antt =====
-- What a node that passes the filter offers to the pod.
use carina.Base.{
  String, ℤ, ◌≡◌, refl, subst, ◌∙◌, ◌⊎◌, inl, inr, Bool, true, false, Option, none, some, In,
  lookup, ◌==◌, if◌then◌else◌, List, [], ◌∷◌, Map, All, arith, eq_iff,
}
use carina.Errors.{ok}
use carina.Config.{DiskSelectorItem}
use carina.Plugin.{Cluster, Pod}
use carina.Plugin.Fit.{PvcRequest}
use carina.Plugin.Fit.Packing.{IsSize}
use carina.Plugin.Requests.{Gathered, get_pvc_request_map}
use carina.Plugin.Requests.Claims.{bound_node, last_size, IsOn, Counted}
use carina.Plugin.Requests.Kept.{get_pvc_request_map-Kept}
use carina.Plugin.Allocatable.{get_allocatable_map}
use carina.Plugin.Filter.{success, groups_fit, gathered_status, filter}
use carina.Plugin.Filter.Rooms.{Room, AreSizes, groups_fit-Room}

same_node :
    (selectors : List DiskSelectorItem) (cluster : Cluster) (node : String) (g : Gathered)
    → gathered_status selectors cluster node g ≡ ok success
    → (g.node_name ≡ "") ⊎ (g.node_name ≡ node)
unfolding gathered_status
same_node selectors cluster node g passed =
    ground (arith, eq_iff g.node_name "", eq_iff g.node_name node)

all_fit :
    (selectors : List DiskSelectorItem) (cluster : Cluster) (node : String) (g : Gathered)
    (m : Map ℤ)
    → get_allocatable_map selectors cluster g.use_raw node ≡ ok m
    → gathered_status selectors cluster node g ≡ ok success
    → groups_fit selectors m g.requests ≡ success
unfolding gathered_status
all_fit selectors cluster node g m read passed = from_requests g.requests refl
  where
    from_requests :
        (groups : Map (List PvcRequest))
        → g.requests ≡ groups
        → groups_fit selectors m groups ≡ success
    from_requests [] e = unfold groups_fit in refl
    from_requests (r ∷ groups) e = ground (arith, e, read)

on_node :
    (o : Option String) (seen node : String)
    → (seen ≡ "") ⊎ (seen ≡ node)
    → IsOn seen o
    → IsOn node o
on_node none seen node where_seen on = tt
on_node (some n) seen node where_seen (inl empty) = inl empty
on_node (some n) seen node (inl none_seen) (inr same) = inl (same ∙ none_seen)
on_node (some n) seen node (inr here) (inr same) = inr (same ∙ here)

-- A request of the size is in a list for the group that there is room for.
abbrev pub Served : List DiskSelectorItem → Map ℤ → String → Option ℤ → Type 0
Served selectors m group none = Unit
Served selectors m group (some size) =
    (rs : List PvcRequest) × (r : PvcRequest) × In r rs
    × (r.request ≡ size)
    × Room selectors m group rs

module _ (selectors : List DiskSelectorItem) (m : Map ℤ) (group : String) where
  Room-of :
      (groups : Map (List PvcRequest)) (rs : List PvcRequest)
      → All (λ e. Room selectors m e.0 e.1) groups
      → lookup group groups ≡ some rs
      → Room selectors m group rs
  unfolding lookup
  Room-of [] rs rooms h = cc h
  Room-of ((first, first_rs) ∷ groups) rs rooms h =
      at (first == group) refl h (λ k. Room-of groups rs rooms.1 k)
    where
      at :
          (b : Bool)
          → (first == group) ≡ b
          → (if b then some first_rs else lookup group groups) ≡ some rs
          → (lookup group groups ≡ some rs → Room selectors m group rs)
          → Room selectors m group rs
      at true same k later =
          subst (λ x. Room selectors m x rs) ((eq_iff first group).0 same)
            (subst (Room selectors m first) (the_list k) rooms.0)
        where
          the_list : some first_rs ≡ some rs → first_rs ≡ rs
          the_list e = cc e
      at false other k later = later k

  Counted-Served :
      (size : Option ℤ) (groups : Map (List PvcRequest)) (o : Option (List PvcRequest))
      → All (λ e. Room selectors m e.0 e.1) groups
      → lookup group groups ≡ o
      → Counted size o
      → Served selectors m group size
  Counted-Served none groups o rooms h counted = tt
  Counted-Served (some size) groups none rooms h counted = absurd counted
  Counted-Served (some size) groups (some rs) rooms h counted =
      (rs, counted.0, counted.1, counted.2, Room-of groups rs rooms h)

-- A node that passes the filter is the node of every claim of the pod that is bound to a volume
-- whose attributes name one. For any device group, the last claim of the pod that asks it for space
-- is in a list of requests of that group that there is room for; and there is room for every list of
-- requests that is kept. This is for a pod whose claims could be read, on a node whose storage could
-- be read, with sizes and sums that int64 holds.
pub filter-Room :
    (selectors : List DiskSelectorItem) (cluster : Cluster) (pod : Pod) (node group : String)
    (g : Gathered) (m : Map ℤ)
    → get_pvc_request_map selectors cluster pod ≡ ok g
    → get_allocatable_map selectors cluster g.use_raw node ≡ ok m
    → All (λ e. AreSizes e.1) g.requests
    → All (λ e. IsSize e.1) m
    → filter selectors cluster pod node ≡ ok success
    → All (λ vol. IsOn node (bound_node cluster pod.namespace vol)) pod.volumes
      × Served selectors m group (last_size selectors cluster pod.namespace group pod.volumes none)
      × All (λ e. Room selectors m e.0 e.1) g.requests
unfolding filter
filter-Room selectors cluster pod node group g m gathered read asked sizes passed =
    let status : gathered_status selectors cluster node g ≡ ok success =
      rw (gathered, filter) at passed in
    let kept = get_pvc_request_map-Kept group selectors cluster pod g gathered in
    let rooms =
      groups_fit-Room selectors m sizes g.requests asked
        (all_fit selectors cluster node g m read status) in
    (
      all_on pod.volumes (same_node selectors cluster node g status) kept.0,
      Counted-Served selectors m group _ g.requests (lookup group g.requests) rooms refl kept.1,
      rooms,
    )
  where
    all_on :
        (volumes : List (Option String))
        → (g.node_name ≡ "") ⊎ (g.node_name ≡ node)
        → All (λ vol. IsOn g.node_name (bound_node cluster pod.namespace vol)) volumes
        → All (λ vol. IsOn node (bound_node cluster pod.namespace vol)) volumes
    all_on [] seen h = tt
    all_on (vol ∷ volumes) seen h = (
      on_node (bound_node cluster pod.namespace vol) g.node_name node seen h.0,
      all_on volumes seen h.1,
    )
