-- ===== src/Runner.antt =====
-- The capacities that a node publishes: generateStatus with generateLvmStatus and
-- generateDiskStatus of runners/nodestorageresource.go. The groups come from GetCurrentVgStruct, the
-- devices from ListDevicesDetail, and the disks from the library disko.
pub mod Admission
pub mod Examples
use carina.Base.{
  String, ℕ, ◌-◌, ◌+◌, ◌/◌, ◌^◌, ◌*◌, ℤ, pos, Bool, true, false, ◌&&◌, ◌||◌, not, Option, none,
  some, List, [], ◌∷◌, ◌++◌, Map, map, any, keep_if, lookup, insert, ltb, to_lower, add_u64,
  sub_u64, to_int64, ◌<>◌, ◌==◌, if◌then◌else◌,
}
use carina.Errors.{Error, Result, ok, err}
use carina.Api.{VgGroup}
use carina.Config.{DiskSelectorItem, contains_string}
use carina.Placement.Candidates.{capacity_key_prefix}
use carina.Partition.{RawDisk, FreeSpace, Disko}
use carina.Partition.Devices.{LocalDisk}
use carina.Volume.Disks.{default_reserved_space}

-- The parts of NodeStorageResourceStatus that are filled in
pub record Status : Type 0 where
  pub capacity : Map ℤ
  pub allocatable : Map ℤ
  pub vg_groups : List VgGroup
  pub disks : List RawDisk

-- What the manager gives: the groups selected for the node, by name; the volume groups; the block
-- devices; the disks at some paths, none on an error; and the matching of names by expressions, none
-- for one that does not compile.
pub record Manager : Type 0 where
  pub select_group : Map DiskSelectorItem
  pub vg_struct : Result (List VgGroup)
  pub devices : Result (List LocalDisk)
  pub scan_all_disk : List String → Result (List RawDisk)
  pub free_spaces : RawDisk → List FreeSpace
  pub matcher : List String → Option (String → Bool)

abbrev key_of : String → String
key_of name = capacity_key_prefix <> name

-- `v.VGSize>>30 + 1`, and what is free above the reserve
unfoldable pub size_gb : ℕ → ℕ
size_gb size = add_u64 (size / 2 ^ 30) 1

unfoldable pub free_gb : ℕ → ℕ
free_gb free =
    if ltb default_reserved_space free
    then add_u64 (sub_u64 free default_reserved_space / 2 ^ 30) 1
    else 0

is_known : Map DiskSelectorItem → VgGroup → Bool
is_known groups vg = elim (lookup vg.vg_name groups) [ none ↦ false | some item ↦ true ]

-- The second loop
unfoldable pub publish_groups : List VgGroup → Status → Status
unfolding size_gb free_gb
publish_groups [] st = st
publish_groups (v ∷ vgs) st = publish_groups vgs (record st {
  capacity = insert (key_of v.vg_name) (to_int64 (pos (size_gb v.vg_size))) st.capacity;
  allocatable = insert (key_of v.vg_name) (to_int64 (pos (free_gb v.vg_free))) st.allocatable;
})

abbrev lvm_status : Manager → Result (List VgGroup) → Status → Status
lvm_status m (err e) st = st
lvm_status m (ok vgs) st =
    let known = st.vg_groups ++ keep_if (is_known m.select_group) vgs in
    publish_groups known (record st { vg_groups = known })

unfoldable pub generate_lvm_status : Manager → Status → Status
unfolding publish_groups is_known
generate_lvm_status m st = lvm_status m m.vg_struct st

-- `blockClass`: the disks of each group. A disk is in the first group that matches it.
abbrev Classes : Type 0
Classes = List (String × List String)

in_class : String → Classes → List String
in_class name [] = []
in_class name ((g, ds) ∷ classes) = if g == name then ds else in_class name classes

add_to : String → String → Classes → Classes
add_to name disk [] = (name, disk ∷ []) ∷ []
add_to name disk ((g, ds) ∷ classes) =
    let rest = add_to name disk classes in
    if g == name then (g, ds ++ disk ∷ []) ∷ classes else (g, ds) ∷ rest

-- `hasMatchedDisk`
matched : String → Classes → Bool
matched disk classes = any (λ c. contains_string c.1 disk) classes

classify_disk : (name : String) → (String → Bool) → LocalDisk → Classes → Classes
unfolding in_class add_to matched
classify_disk name matches d classes =
    if not (matches d.name) || d.kind == "part"
    then classes
    else if contains_string (in_class name classes) d.name || matched d.name classes
    then classes
    else add_to name d.name classes

classify_disks : (name : String) → (String → Bool) → List LocalDisk → Classes → Classes
unfolding classify_disk
classify_disks name matches [] classes = classes
classify_disks name matches (d ∷ ds) classes =
    classify_disks name matches ds (classify_disk name matches d classes)

abbrev classified : Option (String → Bool) → String → List LocalDisk → Classes → Classes
classified none name disks classes = classes
classified (some matches) name disks classes = classify_disks name matches disks classes

unfoldable pub classify :
    (List String → Option (String → Bool))
    → List LocalDisk
    → Map DiskSelectorItem
    → Classes
    → Classes
unfolding classify_disks
classify matcher disks [] classes = classes
classify matcher disks ((key, ds) ∷ groups) classes = classify matcher disks groups (
    if to_lower ds.policy == "lvm"
    then classes
    else classified (matcher ds.re) ds.name disks classes)

-- disko.FreeSpace.Size(), and the largest of some spaces
abbrev space_size : FreeSpace → ℕ
space_size fs = add_u64 (sub_u64 fs.last fs.start) 1

unfoldable pub largest : List FreeSpace → ℕ
largest [] = 0
largest (fs ∷ spaces) =
    let rest = largest spaces in if ltb rest (space_size fs) then space_size fs else rest

abbrev publish_disk : (group : String) → RawDisk → List FreeSpace → Status → Status
publish_disk group disk [] st = st
publish_disk group disk (fs ∷ spaces) st =
    let key = key_of (group <> ("/" <> disk.name)) in
    record st {
      capacity = insert key (to_int64 (pos (disk.size / 2 ^ 30))) st.capacity;
      allocatable = insert key (to_int64 (pos (largest (fs ∷ spaces) / 2 ^ 30))) st.allocatable;
    }

publish_disks : Manager → (group : String) → List RawDisk → Status → Status
unfolding largest
publish_disks m group [] st = st
publish_disks m group (disk ∷ disks) st =
    publish_disks m group disks (publish_disk group disk (m.free_spaces disk) st)

-- The scan of the disks of every group, which adds the disks to the status until it fails
abbrev add_scanned : Result (List RawDisk) → Status → Status
add_scanned (err e) st = st
add_scanned (ok disks) st = record st { disks = st.disks ++ disks }

abbrev joined :
    (group : String)
    → Result (List RawDisk)
    → Option (List (String × List RawDisk))
    → Option (List (String × List RawDisk))
joined group (err e) rest = none
joined group (ok disks) none = none
joined group (ok disks) (some rest) = some ((group, disks) ∷ rest)

unfoldable pub scanned : Manager → Classes → Status → Option (List (String × List RawDisk)) × Status
scanned m [] st = (some [], st)
scanned m ((group, paths) ∷ classes) st =
    let disks = m.scan_all_disk paths in
    let later = scanned m classes (add_scanned disks st) in
    elim disks [ err e ↦ (none, st) | ok found ↦ (joined group (ok found) later.0, later.1) ]

unfoldable pub publish_all : Manager → List (String × List RawDisk) → Status → Status
unfolding publish_disks
publish_all m [] st = st
publish_all m ((group, disks) ∷ groups) st = publish_all m groups (publish_disks m group disks st)

abbrev published : Manager → Option (List (String × List RawDisk)) × Status → Status
published m (none, st) = st
published m (some groups, st) = publish_all m groups st

abbrev disk_status : Manager → Result (List LocalDisk) → Status → Status
disk_status m (err e) st = st
disk_status m (ok disks) st =
    published m (scanned m (classify m.matcher disks m.select_group []) st)

unfoldable pub generate_disk_status : Manager → Status → Status
unfolding classify scanned publish_all
generate_disk_status m st = disk_status m m.devices st

-- generateStatus; generateRaidStatus does nothing.
unfoldable pub generate_status : Manager → Status
unfolding generate_lvm_status generate_disk_status
generate_status m =
    generate_disk_status m (
      generate_lvm_status m
        (record { capacity = []; allocatable = []; vg_groups = []; disks = [] }))
