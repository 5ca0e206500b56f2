-- ===== src/Partition.antt =====
-- The partitions of raw disks: pkg/devicemanager/partition/partition.go. The library
-- github.com/anuvu/disko and the commands are parameters. A call works on the lock, on the cache of
-- partition numbers and on the world of the disks; a Go map of partitions is a list of its entries.
pub mod Create
pub mod Update
pub mod Delete
pub mod Devices
pub mod Examples
use carina.Base.{
  String, ℕ, zero, suc, ◌+◌, ◌-◌, ◌^◌, Bool, true, false, Option, none, some, List, [], ◌∷◌, Map,
  split, ◌<>◌, ◌==◌, if◌then◌else◌,
}
use carina.Errors.{Error, plain, panic, Result, ok, err}
use carina.Locks.{GlobalLocks}
use carina.Lvm.{Executor}
use carina.Volume.{Op}

-- disko.Partition: `last` is the last byte of it.
pub record Part : Type 0 where
  pub start : ℕ
  pub last : ℕ
  pub name : String
  pub number : ℕ

-- disko.Disk
pub record RawDisk : Type 0 where
  pub name : String
  pub path : String
  pub size : ℕ
  pub partitions : List (ℕ × Part)

-- disko.FreeSpace
pub record FreeSpace : Type 0 where
  pub start : ℕ
  pub last : ℕ

-- The library's calls, and the commands
pub record Disko (W : Type 0) : Type 0 where
  pub scan : String → W → Result RawDisk
  pub free_spaces : RawDisk → List FreeSpace
  pub free_spaces_with_min : RawDisk → ℕ → List FreeSpace
  pub create_partition : RawDisk → Part → Op W (Unit {0})
  pub delete_partition : RawDisk → ℕ → Op W (Unit {0})
  pub wipe : RawDisk → Op W (Unit {0})
  -- linux.GetPartitionKname
  pub partition_kname : String → ℕ → String
  pub executor : Executor W

-- CacheParttionNum and the disks
abbrev pub Cached : Type 0 → Type 0
Cached W = Map ℕ × W

-- LocalPartitionImplement
abbrev pub LocalPartition : Type 0 → Type 0 → Type 0
LocalPartition S W = GlobalLocks S × Cached W

abbrev pub disk_mutex : String
disk_mutex = "DiskMutex"

abbrev pub busy : Error
busy = plain "get global mutex failed"

abbrev pub exhausted : Error
exhausted = plain "don't have enough space"

-- `strings.Split(groups, "/")[1]` panics for a group without a slash.
abbrev second : List String → Result String
second [] = err panic
second (a ∷ []) = err panic
second (a ∷ b ∷ _) = ok b

unfoldable pub disk_path : String → Result String
disk_path groups = second (split b'/' groups)

-- A name for the nothing that GetPartition returns
abbrev pub no_part : Part
no_part = record { start = 0; last = 0; name = ""; number = 0 }

abbrev pub find_named : String → List (ℕ × Part) → Part
find_named name [] = no_part
find_named name ((n, p) ∷ parts) =
    let rest = find_named name parts in if p.name == name then p else rest

module _ {W : Type 0} (disko : Disko W) where
  abbrev scan_path : Result String → W → Result RawDisk
  scan_path (err e) w = err e
  scan_path (ok path) w = disko.scan ("/dev/" <> path) w

  unfoldable pub scan_disk : String → W → Result RawDisk
  unfolding disk_path
  scan_disk groups w = scan_path (disk_path groups) w

  abbrev named_of : String → Result RawDisk → Result Part
  named_of name (err e) = err e
  named_of name (ok disk) = ok (find_named name disk.partitions)

  unfoldable pub get_partition : (name groups : String) → W → Result Part
  unfolding scan_disk
  get_partition name groups w = named_of name (scan_disk groups w)

  -- A step on the disks, and one on the cache
  abbrev pub on_world : {A : Type 0} → Op W A → Op (Cached W) A
  on_world op (cache, w) = let x = op w in (x.0, (cache, x.1))

  abbrev pub on_cache : (Map ℕ → Map ℕ) → Op (Cached W) (Unit {0})
  on_cache f (cache, w) = (ok tt, (f cache, w))

  unfoldable pub part_probe : Op W (Unit {0})
  part_probe = disko.executor.execute_command "bash" ("-c" ∷ "partprobe" ∷ [])

-- `partition, _ := ld.GetPartition(...)`: the error is dropped, a panic is not.
abbrev pub dropped : Result Part → Result Part
dropped (ok p) = ok p
dropped (err panic) = err panic
dropped (err _) = ok no_part
