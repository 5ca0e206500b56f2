-- ===== src/Partition/Create/Placed.antt =====
-- Where CreatePartition puts a partition.
use carina.Base.{
  String, ℕ, ◌≤◌, ◌<◌, ◌≡◌, refl, ap, subst, arith, Bool, true, false, ◌⊎◌, inl, inr, Option, none,
  some, List, [], ◌∷◌, All, lookup, nat_eq, eq_iff, ◌==◌, if◌then◌else◌,
}
use carina.Errors.{panic, Result, ok, err}
use carina.Locks.{StringSet}
use carina.Locks.Scope.{guarded_result}
use carina.Volume.{Op, read, give}
use carina.Volume.Steps.{continue-ok}
use carina.Partition.{
  Part, RawDisk, FreeSpace, Disko, Cached, LocalPartition, disk_mutex, busy, exhausted, scan_disk,
  get_partition, on_world, dropped,
}
use carina.Partition.Create.{
  open_number, last_byte, numbered, new_part, create_body, unless_known, unless_there,
  create_partition,
}
use carina.Partition.Create.Numbers.{IsOpen, open_number-IsOpen}
use carina.Partition.Create.Spaces.{IsRoom, Fits, last_byte-EndsWell}

taken_part :
    (n : ℕ) (b : Bool) (made p : Part)
    → nat_eq n 0 ≡ b
    → (if b then err exhausted else ok made) ≡ ok p
    → (n ≡ 0 → ⊥) × (made ≡ p)
taken_part n true made p e h = cc h
taken_part n false made p e h = ((λ z. ground (arith, e, z)), cc h)

made_part : (name : String) → FreeSpace → (size n : ℕ) → Part
made_part name fs size n = record {
  start = fs.start;
  last = last_byte fs size;
  name = name;
  number = n;
}

made_part-Fits :
    (name : String) (disk : RawDisk) (fs : FreeSpace) (size n : ℕ)
    → 1 ≤ size
    → IsRoom size fs
    → IsOpen 1 n disk.partitions
    → n < 128
    → Fits disk fs size (made_part name fs size n)
unfolding made_part
made_part-Fits name disk fs size n positive room o bound =
    let ends = last_byte-EndsWell fs size positive room in
    record {
      starts = refl;
      nonempty = ends.nonempty;
      inside = ends.inside;
      enough = ends.enough;
      tight = ends.tight;
      number_open = o;
      number_bound = omega (arith, bound);
    }

numbered-Fits :
    (name : String) (disk : RawDisk) (fs : FreeSpace) (size n : ℕ) (p : Part)
    → 1 ≤ size
    → IsRoom size fs
    → (n ≡ 0) ⊎ (IsOpen 1 n disk.partitions × (n < 128))
    → numbered name fs size n ≡ ok p
    → (p.name ≡ name) × Fits disk fs size p
unfolding made_part
numbered-Fits name disk fs size n p positive room o h =
    let t = taken_part n (nat_eq n 0) (made_part name fs size n) p refl h in
    elim o [
      | inl e ↦ absurd (t.0 e)
      | inr open_number ↦
          subst (λ q. (q.name ≡ name) × Fits disk fs size q) t.1
            (refl, made_part-Fits name disk fs size n positive room open_number.0 open_number.1)
    ]

-- The free spaces that the library gives have room for what was asked for.
abbrev pub GivesRoom : {W : Type 0} → Disko W → Type 0
GivesRoom disko =
    (disk : RawDisk) (min : ℕ) → All (IsRoom min) (disko.free_spaces_with_min disk min)

-- A partition of the name was made on a disk of the group, in the first of the free spaces that the
-- library gives for the size.
pub record Made {W : Type 0} (disko : Disko W) (name groups : String) (size : ℕ) (w : W)
    : Type 0 where
  pub disk : RawDisk
  pub scanned : scan_disk disko groups w ≡ ok disk
  pub part : Part
  pub fs : FreeSpace
  pub spaces : List FreeSpace
  pub offered : disko.free_spaces_with_min disk size ≡ fs ∷ spaces
  pub named : part.name ≡ name
  pub fits : Fits disk fs size part
  pub end : W
  pub created : disko.create_partition disk part w ≡ (ok tt, end)

new_part-Fits :
    (name : String) (disk : RawDisk) (spaces : List FreeSpace) (size : ℕ) (p : Part)
    → 1 ≤ size
    → All (IsRoom size) spaces
    → new_part name disk spaces size ≡ ok p
    → (fs : FreeSpace) × (rest : List FreeSpace) × (spaces ≡ fs ∷ rest)
      × (p.name ≡ name)
      × Fits disk fs size p
unfolding new_part
new_part-Fits name disk [] size p positive room h = cc h
new_part-Fits name disk (fs ∷ spaces) size p positive room h =
    let n =
      numbered-Fits name disk fs size (open_number 127 1 disk.partitions) p positive room.0
        (open_number-IsOpen 127 1 disk.partitions) h in
    (fs, spaces, refl, n.0, n.1)

module _ {W : Type 0} (disko : Disko W) (room : GivesRoom disko) where
  on_world-ok :
      (op : Op W (Unit {0})) (c : Cached W)
      → on_world disko op c ≡ (ok tt, (on_world disko op c).1)
      → op c.1 ≡ (ok tt, (op c.1).1)
  on_world-ok op (cache, w) h = ap (λ r. (r, (op w).1)) (ap (λ p. p.0) h)

  create_body-Made :
      (name groups : String) (size : ℕ) (c : Cached W)
      → 1 ≤ size
      → (create_body disko name groups size c).0 ≡ ok tt
      → Made disko name groups size c.1
  unfolding create_body
  create_body-Made name groups size c positive h =
      let first =
        continue-ok (read (λ c. scan_disk disko groups c.1) c) _
          (ap (λ r. (r, (create_body disko name groups size c).1)) h) in
      let second =
        continue-ok (give (new_part name first.0 (disko.free_spaces_with_min first.0 size) size) c)
          _ first.2 in
      let third =
        continue-ok (on_world disko (disko.create_partition first.0 second.0) c) _ second.2 in
      let n =
        new_part-Fits name first.0 _ size second.0 positive (room first.0 size)
          (ap (λ p. p.0) second.1) in
      record {
        disk = first.0;
        scanned = ap (λ p. p.0) first.1;
        part = second.0;
        fs = n.0;
        spaces = n.1;
        offered = n.2;
        named = n.3;
        fits = n.4;
        end = (disko.create_partition first.0 second.0 c.1).1;
        created = on_world-ok (disko.create_partition first.0 second.0) c third.1;
      }

  -- Why CreatePartition succeeded
  pub data Outcome (name groups : String) (size : ℕ) (c : Cached W) : Type 0 where
    there :
        (p : Part)
        → dropped (get_partition disko name groups c.1) ≡ ok p
        → p.name ≡ name
        → Outcome name groups size c
    remembered : (n : ℕ) → lookup name c.0 ≡ some n → Outcome name groups size c
    made : Made disko name groups size c.1 → Outcome name groups size c

  module _ {S : Type 0} (sets : StringSet S) (name groups : String) (size : ℕ)
      (c : LocalPartition S W) (positive : 1 ≤ size) where
    known-Outcome :
        (o : Option ℕ)
        → lookup name c.1.0 ≡ o
        → (unless_known disko sets name groups size o c).0 ≡ ok tt
        → Outcome name groups size c.1
    known-Outcome (some n) e h = remembered n e
    known-Outcome none e h =
        guarded_result sets disk_mutex (λ r. r ≡ ok tt → Outcome name groups size c.1) (err busy)
          (create_body disko name groups size) c.0 c.1 (λ g. cc g)
          (λ g. made (create_body-Made name groups size c.1 positive g)) h

    named :
        (b : Bool) (p : Part)
        → dropped (get_partition disko name groups c.1.1) ≡ ok p
        → (p.name == name) ≡ b
        → ◌≡◌ {A = Result (Unit {0})}
            (if b
              then (ok tt, c)
              else unless_known disko sets name groups size (lookup name c.1.0) c).0
            (ok tt)
        → Outcome name groups size c.1
    named true p g e k = there p g (ground (arith, e, eq_iff p.name name))
    named false p g e k = known-Outcome (lookup name c.1.0) refl k

    there-Outcome :
        (r : Result Part)
        → dropped (get_partition disko name groups c.1.1) ≡ r
        → (unless_there disko sets name groups size r c).0 ≡ ok tt
        → Outcome name groups size c.1
    there-Outcome (err e) g h = cc h
    there-Outcome (ok p) g h = named (p.name == name) p g refl h

    -- If CreatePartition of a positive size succeeds, then the disk had a partition of the name or
    -- the cache a number for it; or the partition was made from the start of the first free space that
    -- the library gives for the size on the disk, inside it, of the size asked for or one byte more,
    -- with the lowest number from 1 to 127 that no partition had.
    pub create_partition-Outcome :
        (create_partition disko sets name groups size c).0 ≡ ok tt → Outcome name groups size c.1
    unfolding create_partition
    create_partition-Outcome h =
        there-Outcome (dropped (get_partition disko name groups c.1.1)) refl h

-- Where the free spaces of the disk are all too small, CreatePartition panics under the lock: the
-- answer that there is not enough space is never given.
pub create_body_no_room :
    {W : Type 0} (disko : Disko W) (name groups : String) (size : ℕ) (c : Cached W) (disk : RawDisk)
    → scan_disk disko groups c.1 ≡ ok disk
    → disko.free_spaces_with_min disk size ≡ []
    → create_body disko name groups size c ≡ (err panic, c)
unfolding create_body new_part
create_body_no_room disko name groups size c disk scanned full = rw (scanned, full)
