-- ===== src/Partition/Delete.antt =====
-- DeletePartition, DeletePartitionByPartNumber, UpdatePartitionCache and Wipe of partition.go.
use carina.Base.{
  String, ℕ, Option, none, some, List, [], ◌∷◌, Map, lookup, insert, erase, split, nat_eq, ◌<>◌,
  ◌==◌, if◌then◌else◌,
}
use carina.Errors.{Error, plain, panic, Result, ok, err}
use carina.Locks.{StringSet}
use carina.Locks.Scope.{guarded}
use carina.Volume.{Op, ◌>>=◌, ◌>>◌, read, give}
use carina.Partition.{
  Part, RawDisk, Disko, Cached, LocalPartition, disk_mutex, busy, scan_disk, on_world, on_cache,
  part_probe, disk_path,
}

-- An error of the library is told with the place.
abbrev deletion : String → {W : Type 0} → Result (Unit {0}) × W → Result (Unit {0}) × W
deletion place (ok done, w) = (ok done, w)
deletion place (err panic, w) = (err panic, w)
deletion place (err _, w) = (err (plain ("Delete partition on disk failed" <> place)), w)

-- Every name that the cache has for the number is forgotten.
forget : ℕ → Map ℕ → Map ℕ
forget number [] = []
forget number ((name, n) ∷ cache) =
    let rest = forget number cache in if nat_eq n number then rest else (name, n) ∷ rest

module _ {W : Type 0} (disko : Disko W) where
  -- The loop over the partitions, which stops at a failure
  unfoldable pub delete_named : (name place : String) → RawDisk → List (ℕ × Part) → Op W (Unit {0})
  delete_named name place disk [] = give (ok tt)
  delete_named name place disk ((n, p) ∷ parts) =
      let rest = delete_named name place disk parts in
      if p.name == name
      then (λ w. deletion place (disko.delete_partition disk p.number w)) >> rest
      else rest

  abbrev path_of : Result String → String
  path_of (ok path) = "/dev/" <> path
  path_of (err e) = ""

  unfoldable pub delete_body : (name groups : String) → Op (Cached W) (Unit {0})
  unfolding delete_named
  delete_body name groups = do
    disk ← read (λ c. scan_disk disko groups c.1)
    on_world disko (delete_named name (path_of (disk_path groups)) disk disk.partitions)
    on_cache disko (erase name)
    on_world disko (part_probe disko)

  unfoldable pub delete_partition :
      {S : Type 0}
      → StringSet S
      → (name groups : String) → LocalPartition S W
      → Result (Unit {0}) × LocalPartition S W
  unfolding delete_body
  delete_partition sets name groups = guarded sets disk_mutex (err busy) (delete_body name groups)

  number_body : RawDisk → ℕ → Op (Cached W) (Unit {0})
  unfolding forget
  number_body disk number = do
    on_world disko (λ w. deletion disk.path (disko.delete_partition disk number w))
    on_cache disko (forget number)
    on_world disko (part_probe disko)

  unfoldable pub delete_partition_by_part_number :
      {S : Type 0}
      → StringSet S
      → RawDisk
      → ℕ
      → LocalPartition S W
      → Result (Unit {0}) × LocalPartition S W
  unfolding number_body
  delete_partition_by_part_number sets disk number =
      guarded sets disk_mutex (err busy) (number_body disk number)

  -- The device is what stands behind the first slash of what stands behind the first dash.
  abbrev second_part : List String → Result String
  second_part [] = err panic
  second_part (a ∷ []) = err panic
  second_part (a ∷ b ∷ _) = ok b

  abbrev wiped : Result String → Result String
  wiped (err e) = err e
  wiped (ok group) = second_part (split b'/' group)

  abbrev scanned : Result String → W → Result RawDisk
  scanned (err e) w = err e
  scanned (ok path) w = disko.scan ("/dev/" <> path) w

  abbrev settled : (String × Option Error) × W → Result (Unit {0}) × W
  settled ((text, none), w) = (ok tt, w)
  settled ((text, some e), w) = (err e, w)

  wipe_body : String → Op (Cached W) (Unit {0})
  wipe_body groups = do
    disk ← read (λ c. scanned (wiped (second_part (split b'-' groups))) c.1)
    on_world disko (disko.wipe disk)
    on_world disko
        (λ w. settled (disko.executor.execute_command_with_output "udevadm" ("settle" ∷ []) w))

  unfoldable pub wipe :
      {S : Type 0}
      → StringSet S
      → (groups : String) → LocalPartition S W
      → Result (Unit {0}) × LocalPartition S W
  unfolding wipe_body
  wipe sets groups = guarded sets disk_mutex (err busy) (wipe_body groups)

  abbrev kept : Option ℕ → String → ℕ → Map ℕ → Map ℕ
  kept none name number cache = insert name number cache
  kept (some n) name number cache = cache

  unfoldable pub update_partition_cache : String → ℕ → Map ℕ → Map ℕ
  update_partition_cache name number cache = kept (lookup name cache) name number cache
