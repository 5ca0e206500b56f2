-- ===== src/Plugin/Filter.antt =====
-- `Filter` of scheduler/schedulerplugin/localstorage/storage-plugins.go.
pub mod Rooms
pub mod Fits
use carina.Base.{
  String, ℤ, pos, Bool, true, false, ◌&&◌, not, Option, none, some, List, [], ◌∷◌, Map, get_or,
  contains, add64, sub64, gb_up, ltb_ℤ, leb_ℤ, sort_by, ◌==◌, if◌then◌else◌,
}
use carina.Errors.{Error, plain, status, panic, Result, ok, err, message}
use carina.Config.{DiskSelectorItem, check_raw_device_group}
use carina.Plugin.{Cluster, Pod}
use carina.Plugin.Fit.{PvcRequest, all_placed}
use carina.Plugin.Requests.{Gathered, get_pvc_request_map}
use carina.Plugin.Allocatable.{get_allocatable_map}

-- framework.Status, by its code and reason
pub data Status : Type 0 where
  success : Status
  error unschedulable_and_unresolvable : String → Status

-- sort.Slice with the larger request first
insert_down : PvcRequest → List PvcRequest → List PvcRequest
insert_down r [] = r ∷ []
insert_down r (x ∷ xs) = if leb_ℤ x.request r.request then r ∷ x ∷ xs else x ∷ insert_down r xs

unfoldable pub largest_first : List PvcRequest → List PvcRequest
unfolding insert_down
largest_first [] = []
largest_first (r ∷ rs) = insert_down r (largest_first rs)

-- The disks whose group name contains the name of the storage class's group
unfoldable pub matching_disks : String → Map ℤ → List ℤ
matching_disks sc_device_group [] = []
matching_disks sc_device_group ((lv_group, allocatable) ∷ m) =
    if contains lv_group sc_device_group
    then allocatable ∷ matching_disks sc_device_group m
    else matching_disks sc_device_group m

-- `requestTotalBytes += pvcR.request`
unfoldable pub total_bytes : ℤ → List PvcRequest → ℤ
total_bytes total [] = total
total_bytes total (r ∷ rs) = total_bytes (add64 total r.request) rs

-- One turn of the loop over `pvcRequestMap`: is there room for a group's requests?
unfoldable pub group_fits : List DiskSelectorItem → Map ℤ → String → List PvcRequest → Bool
unfolding matching_disks total_bytes
group_fits selectors allocatable_map sc_device_group requests =
    if check_raw_device_group selectors sc_device_group
    then all_placed (matching_disks sc_device_group allocatable_map) (largest_first requests)
    else leb_ℤ (gb_up (total_bytes (pos 0) (largest_first requests)))
        (get_or (pos 0) sc_device_group allocatable_map)

unfoldable pub groups_fit : List DiskSelectorItem → Map ℤ → Map (List PvcRequest) → Status
groups_fit selectors allocatable_map [] = success
groups_fit selectors allocatable_map ((sc_device_group, requests) ∷ m) =
    if group_fits selectors allocatable_map sc_device_group requests
    then groups_fit selectors allocatable_map m
    else unschedulable_and_unresolvable "node storage resource insufficient"

abbrev is_empty : Map (List PvcRequest) → Bool
is_empty [] = true
is_empty (_ ∷ _) = false

-- A status for an error; a panic goes on.
abbrev ended : (String → Status) → Error → Result Status
ended st panic = err panic
ended st (plain e) = ok (st (message (plain e)))
ended st (status c e) = ok (st (message (status c e)))

abbrev capacity_status : List DiskSelectorItem → Gathered → Result (Map ℤ) → Result Status
capacity_status selectors g (ok allocatable_map) =
    ok (groups_fit selectors allocatable_map g.requests)
capacity_status selectors g (err e) = ended unschedulable_and_unresolvable e

gathered_status : List DiskSelectorItem → Cluster → String → Gathered → Result Status
gathered_status selectors cluster node g =
    if not (g.node_name == "") && not (g.node_name == node)
    then ok (unschedulable_and_unresolvable "pv node mismatch")
    else if is_empty g.requests
    then ok success
    else capacity_status selectors g (get_allocatable_map selectors cluster g.use_raw node)

-- Filter(pod, node)
unfoldable pub filter : List DiskSelectorItem → Cluster → Pod → String → Result Status
unfolding gathered_status
filter selectors cluster pod node = elim (get_pvc_request_map selectors cluster pod) [
  | err e ↦ ended error e
  | ok g ↦ gathered_status selectors cluster node g
]
