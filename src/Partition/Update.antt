-- ===== src/Partition/Update.antt =====
-- UpdatePartition of partition.go.
use carina.Base.{
  String, ℕ, ◌/◌, ◌^◌, Bool, true, false, ◌&&◌, ◌||◌, Option, none, some, List, [], ◌∷◌, insert,
  length, ltb, leb, nat_eq, sub_u64, add_u64, contains, show_uint, ◌<>◌, ◌==◌, if◌then◌else◌,
}
use carina.Errors.{Error, plain, Result, ok, err, fail_if}
use carina.Locks.{StringSet}
use carina.Locks.Scope.{guarded}
use carina.Lvm.Report.{remove_all}
use carina.Volume.{Op, ◌>>=◌, ◌>>◌, read, give}
use carina.Partition.{
  Part, RawDisk, FreeSpace, Disko, Cached, LocalPartition, disk_mutex, busy, exhausted, scan_disk,
  get_partition, on_world, on_cache, part_probe, dropped, disk_path,
}
use Prim.Native.Char.{code}

-- strings.TrimSpace of ASCII
is_space : ℕ → Bool
is_space c = nat_eq c 32 || leb 9 c && leb c 13

trim_left : String → String
unfolding is_space
trim_left String.[] = String.[]
trim_left (String.◌∷◌ c s) =
    let rest = trim_left s in if is_space (code c) then rest else String.◌∷◌ c s

trim_right : String → String
unfolding is_space
trim_right String.[] = String.[]
trim_right (String.◌∷◌ c s) =
    let rest = trim_right s in if is_space (code c) && rest == "" then "" else String.◌∷◌ c rest

unfoldable pub trim_space : String → String
unfolding trim_left trim_right
trim_space s = trim_right (trim_left s)

-- disko.Partition.Size()
abbrev pub part_size : Part → ℕ
part_size p = add_u64 (sub_u64 p.last p.start) 1

abbrev silent : {W : Type 0} → (String × Option Error) × W → Result (Unit {0}) × W
silent ((text, none), w) = (ok tt, w)
silent ((text, some e), w) = (err e, w)

module _ {W : Type 0} (disko : Disko W) where
  open disko use {executor}

  -- A command of which only the error is looked at
  unfoldable pub run_command : String → List String → Op W (Unit {0})
  run_command command args w = silent (executor.execute_command_with_output command args w)

  when : Bool → Op W (Unit {0}) → Op W (Unit {0})
  when true op = op
  when false op = give (ok tt)

  -- The mount point, if there is one; an error of findmnt is only logged.
  abbrev target_of : (String × Option Error) × W → String × W
  target_of ((text, e), w) = (trim_space (remove_all b'"' text), w)

  abbrev resize_at : RawDisk → Part → ℕ → String × W → Result (Unit {0}) × W
  resize_at disk p size (target, w) =
      (when (contains target "mount") (run_command "umount" (target ∷ []))
          >> run_command "parted" (
              "-s"
              ∷ disk.path
              ∷ "resizepart"
              ∷ show_uint p.number
              ∷ (show_uint (sub_u64 (add_u64 p.start size) 1 / 2 ^ 30) <> "g")
              ∷ [])
          >> when (contains target "mount")
              (run_command "mount" (disko.partition_kname disk.path p.number ∷ target ∷ [])))
        w

  unfoldable pub resize_part : RawDisk → Part → ℕ → Op W (Unit {0})
  unfolding when run_command trim_space
  resize_part disk p size w = resize_at disk p size (
      target_of (
        executor.execute_command_with_output "/usr/bin/findmnt"
          ("-S"
            ∷ disko.partition_kname disk.path p.number
            ∷ "--noheadings"
            ∷ "--output=target"
            ∷ [])
          w))

  -- The loop over the partitions: the number of the last one of the name, 0 if there is none
  unfoldable pub resize_named :
      (name : String) → RawDisk → ℕ → (number : ℕ) → List (ℕ × Part) → Op W ℕ
  unfolding resize_part
  resize_named name disk size number [] = give (ok number)
  resize_named name disk size number ((n, p) ∷ parts) =
      let others = resize_named name disk size number parts in
      let matching = resize_named name disk size p.number parts in
      if p.name == name then resize_part disk p size >> matching else others

  abbrev room : List FreeSpace → Result (Unit {0})
  room [] = err exhausted
  room (_ ∷ _) = ok tt

  abbrev place_of : Result String → String
  place_of (ok path) = "/dev/" <> path
  place_of (err e) = ""

  unfoldable pub update_body : (name groups : String) → ℕ → Part → Op (Cached W) (Unit {0})
  unfolding resize_named
  update_body name groups size partition = do
    disk ← read (λ c. scan_disk disko groups c.1)
    give (room (disko.free_spaces_with_min disk (sub_u64 size (part_size partition))))
    give (
        fail_if (ltb 1 (length disk.partitions))
          (plain ("disk has mutipod used" <> place_of (disk_path groups))))
    number ← on_world disko (resize_named name disk size 0 disk.partitions)
    on_cache disko (insert name number)
    on_world disko (part_probe disko)

  abbrev unless_large :
      {S : Type 0}
      → StringSet S
      → (name groups : String) → ℕ
      → Result Part
      → LocalPartition S W
      → Result (Unit {0}) × LocalPartition S W
  unless_large sets name groups size (err e) c = (err e, c)
  unless_large sets name groups size (ok p) c =
      if leb size (sub_u64 p.last p.start)
      then (ok tt, c)
      else guarded sets disk_mutex (err busy) (update_body name groups size p) c

  unfoldable pub update_partition :
      {S : Type 0}
      → StringSet S
      → (name groups : String) → ℕ
      → LocalPartition S W
      → Result (Unit {0}) × LocalPartition S W
  unfolding update_body
  update_partition sets name groups size c =
      unless_large sets name groups size (dropped (get_partition disko name groups c.1.1)) c
