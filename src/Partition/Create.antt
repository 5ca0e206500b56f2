-- ===== src/Partition/Create.antt =====
-- CreatePartition of partition.go.
pub mod Numbers
pub mod Spaces
pub mod Placed
use carina.Base.{
  String, ℕ, zero, suc, ◌+◌, ◌-◌, ◌^◌, ◌%◌, Bool, true, false, Option, none, some, List, [], ◌∷◌,
  Map, lookup, insert, ltb, nat_eq, sub_u64, add_u64, any, ◌==◌, if◌then◌else◌,
}
use carina.Errors.{Error, plain, panic, Result, ok, err}
use carina.Locks.{StringSet}
use carina.Locks.Scope.{guarded}
use carina.Volume.{Op, ◌>>=◌, ◌>>◌, read, give}
use carina.Partition.{
  Part, RawDisk, FreeSpace, Disko, Cached, LocalPartition, disk_mutex, busy, exhausted, scan_disk,
  get_partition, on_world, on_cache, part_probe, dropped, disk_path,
}

-- `_, exists := disk.Partitions[i]`
unfoldable pub exists : ℕ → List (ℕ × Part) → Bool
exists i parts = any (λ e. nat_eq e.0 i) parts

-- The loop over the numbers from `i` on, of which `count` are left; 0 if all are taken
unfoldable pub open_number : (count i : ℕ) → List (ℕ × Part) → ℕ
unfolding exists
open_number zero i parts = 0
open_number (suc count) i parts =
    let rest = open_number count (suc i) parts in if exists i parts then rest else i

-- The end of the partition: that of the free space, or less
unfoldable pub last_byte : FreeSpace → ℕ → ℕ
last_byte fs size =
    if ltb size (sub_u64 fs.last fs.start) then sub_u64 (add_u64 fs.start size) 1 else fs.last

abbrev numbered : (name : String) → FreeSpace → (size number : ℕ) → Result Part
numbered name fs size number =
    if nat_eq number 0
    then err exhausted
    else ok (record { start = fs.start; last = last_byte fs size; name = name; number = number })

-- The log line of the first branch calls `err.Error()` on a nil error.
unfoldable pub new_part : (name : String) → RawDisk → List FreeSpace → ℕ → Result Part
unfolding open_number last_byte
new_part name disk [] size = err panic
new_part name disk (fs ∷ _) size = numbered name fs size (open_number 127 1 disk.partitions)

module _ {W : Type 0} (disko : Disko W) where
  -- Under the lock
  unfoldable pub create_body : (name groups : String) → ℕ → Op (Cached W) (Unit {0})
  unfolding new_part
  create_body name groups size = do
    disk ← read (λ c. scan_disk disko groups c.1)
    part ← give (new_part name disk (disko.free_spaces_with_min disk size) size)
    on_world disko (disko.create_partition disk part)
    on_cache disko (insert name part.number)
    on_world disko (part_probe disko)

  abbrev unless_known :
      {S : Type 0}
      → StringSet S
      → (name groups : String) → ℕ
      → Option ℕ
      → LocalPartition S W
      → Result (Unit {0}) × LocalPartition S W
  unless_known sets name groups size (some number) c = (ok tt, c)
  unless_known sets name groups size none c =
      guarded sets disk_mutex (err busy) (create_body name groups size) c

  -- `diskPath := ...` before the lock is one that has not panicked already.
  abbrev unless_there :
      {S : Type 0}
      → StringSet S
      → (name groups : String) → ℕ
      → Result Part
      → LocalPartition S W
      → Result (Unit {0}) × LocalPartition S W
  unless_there sets name groups size (err e) c = (err e, c)
  unless_there sets name groups size (ok p) c =
      if p.name == name
      then (ok tt, c)
      else unless_known sets name groups size (lookup name c.1.0) c

  unfoldable pub create_partition :
      {S : Type 0}
      → StringSet S
      → (name groups : String) → ℕ
      → LocalPartition S W
      → Result (Unit {0}) × LocalPartition S W
  unfolding create_body
  create_partition sets name groups size c =
      unless_there sets name groups size (dropped (get_partition disko name groups c.1.1)) c
