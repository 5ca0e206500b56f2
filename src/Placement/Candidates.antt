-- ===== src/Placement/Candidates.antt =====
-- The loops of node_service.go over the allocatable groups of a node, and the choice between the
-- candidates that they collect.
pub mod Sound
pub mod Best
use carina.Base.{
  ◌<>◌, String, ℤ, Bool, true, false, ◌&&◌, ◌||◌, not, Option, none, some, List, [], ◌∷◌, Map, any,
  length, ltb, ltb_ℤ, contains, before, strip_prefix, sort_by, ◌==◌, if◌then◌else◌,
}
use carina.Errors.{Error, plain, Result, ok, err}
use carina.Api.{NodeStorageResource, Disk}
use carina.Config.{DiskSelectorItem, contains_string, check_raw_device_group, binpack, spreadout}

abbrev pub lvm_volume_type : String
lvm_volume_type = "lvm"

abbrev pub raw_volume_type : String
raw_volume_type = "raw"

abbrev pub capacity_key_prefix : String
capacity_key_prefix = "carina.storage.io/"

pub record GroupPair : Type 0 where
  pub node_name : String
  pub group : String
  pub allocatable : ℤ

-- What one request looks for.
pub record Wanted : Type 0 where
  pub request_gb : ℤ
  pub volume_type : String
  pub sc_device_group : String
  pub exclusivity_disk : Bool

-- Does a disk of the group have more than one partition? Asked for exclusive requests only.
unfoldable pub exist_partition : Bool → String → List Disk → Bool
exist_partition exclusive group disks =
    any (λ disk. contains group disk.name && (exclusive && ltb 1 (length disk.partitions))) disks

-- A raw disk that no exclusive volume has taken, and that an exclusive request may take
raw_usable : Wanted → List String → List Disk → String → Bool
raw_usable w lv_exclusivity_disks disks group =
    not (contains_string lv_exclusivity_disks group)
    && not (exist_partition w.exclusivity_disk group disks)

-- `scDeviceGroup != "" && scDeviceGroup != strings.Split(group, "/")[0]`
other_group : Wanted → String → Bool
other_group w group = not (w.sc_device_group == "") && not (w.sc_device_group == before b'/' group)

module _ (selectors : List DiskSelectorItem) (w : Wanted) (lv_exclusivity_disks : List String)
    (disks : List Disk) where
  -- The body of the loop of SelectDeviceGroup, on a group without its prefix
  unfoldable pub device_usable : String → Bool
  unfolding other_group raw_usable
  device_usable group =
      let is_raw_device = check_raw_device_group selectors (before b'/' group) in
      (w.volume_type == raw_volume_type && is_raw_device)
        && (not (other_group w group) && raw_usable w lv_exclusivity_disks disks group)
      || w.volume_type == lvm_volume_type && not is_raw_device

  -- The body of the loops of SelectNode and of GetTotalCapacity
  unfoldable pub node_usable : String → Bool
  unfolding other_group raw_usable
  node_usable group =
      let is_raw_device = check_raw_device_group selectors (before b'/' group) in
      not (other_group w group)
      && ((w.volume_type == raw_volume_type && is_raw_device)
            && raw_usable w lv_exclusivity_disks disks group
          || w.volume_type == lvm_volume_type && not is_raw_device)

-- An entry of `Status.Allocatable` that is large enough, has the prefix and is usable
unfoldable pub offer : (String → Bool) → ℤ → String → String × ℤ → Option GroupPair
offer usable request_gb node_name (group_detail, allocatable) =
    if ltb_ℤ allocatable request_gb
    then none
    else elim (strip_prefix capacity_key_prefix group_detail) [
      | none ↦ none
      | some group ↦
          if usable group
          then some (record { node_name = node_name; group = group; allocatable = allocatable })
          else none
    ]

abbrev add_offer : Option GroupPair → List GroupPair → List GroupPair
add_offer none pairs = pairs
add_offer (some p) pairs = p ∷ pairs

unfoldable pub offers : (String → Bool) → ℤ → String → Map ℤ → List GroupPair
unfolding offer
offers usable request_gb node_name [] = []
offers usable request_gb node_name (e ∷ entries) =
    add_offer (offer usable request_gb node_name e) (offers usable request_gb node_name entries)

-- preselectNode[0] after the sort, and preselectNode[len(preselectNode)-1]
abbrev last : GroupPair → List GroupPair → GroupPair
last p [] = p
last p (q ∷ qs) = last q qs

abbrev err_node_not_found : Error
err_node_not_found = plain "node not found"

unfoldable pub by_strategy : String → List GroupPair → Result GroupPair
by_strategy strategy [] = err err_node_not_found
by_strategy strategy (p ∷ ps) =
    if strategy == binpack
    then ok p
    else if strategy == spreadout
    then ok (last p ps)
    else err (plain ("Unsupported scheduling policies " <> strategy))

-- A single candidate is taken whatever the strategy.
unfoldable pub choose : String → List GroupPair → Result GroupPair
unfolding by_strategy
choose strategy [] = err err_node_not_found
choose strategy (p ∷ []) = ok p
choose strategy (p ∷ q ∷ ps) = by_strategy strategy (sort_by (λ r. r.allocatable) (p ∷ q ∷ ps))
