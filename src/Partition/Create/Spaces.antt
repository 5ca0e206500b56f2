-- ===== src/Partition/Create/Spaces.antt =====
-- The free space that a new partition lies in.
use carina.Base.{
  ℕ, ◌+◌, ◌-◌, ◌^◌, ◌≤◌, ◌<◌, ◌≡◌, refl, arith, Bool, true, false, ltb, sub_u64, add_u64,
  sub_u64-le, if◌then◌else◌,
}
use carina.Partition.{Part, RawDisk, FreeSpace}
use carina.Partition.Create.{last_byte}
use carina.Partition.Create.Numbers.{IsOpen}

-- A free space of at least some bytes, as the library documents it
pub record IsRoom (min : ℕ) (fs : FreeSpace) : Type 0 where
  pub ordered : fs.start ≤ fs.last
  pub bound : fs.last < 2 ^ 64
  pub large : min ≤ fs.last - fs.start + 1

-- The new partition lies in the free space, has the size asked for or one byte more, and has the
-- lowest free number up to 127.
pub record Fits (disk : RawDisk) (fs : FreeSpace) (size : ℕ) (p : Part) : Type 0 where
  pub starts : p.start ≡ fs.start
  pub nonempty : p.start ≤ p.last
  pub inside : p.last ≤ fs.last
  pub enough : size ≤ p.last - p.start + 1
  pub tight : p.last - p.start + 1 ≤ size + 1
  pub number_open : IsOpen 1 p.number disk.partitions
  pub number_bound : p.number ≤ 127

-- The end of the partition
pub record EndsWell (fs : FreeSpace) (size last : ℕ) : Type 0 where
  pub nonempty : fs.start ≤ last
  pub inside : last ≤ fs.last
  pub enough : size ≤ last - fs.start + 1
  pub tight : last - fs.start + 1 ≤ size + 1

pub last_byte-EndsWell :
    (fs : FreeSpace) (size : ℕ) → 1 ≤ size → IsRoom size fs → EndsWell fs size (last_byte fs size)
unfolding last_byte
last_byte-EndsWell fs size positive room =
    rw (sub_u64-le fs.last fs.start room.ordered room.bound)
      (cut (ltb size (fs.last - fs.start)) refl)
  where
    cut :
        (b : Bool)
        → ltb size (fs.last - fs.start) ≡ b
        → EndsWell fs size (if b then sub_u64 (add_u64 fs.start size) 1 else fs.last)
    cut false e = record {
      nonempty = room.ordered;
      inside = omega arith;
      enough = room.large;
      tight = ground (arith, e);
    }
    cut true e = rw shorter (record {
      nonempty = omega (arith, positive);
      inside = ground (arith, e, room.ordered);
      enough = omega (arith, positive);
      tight = omega (arith, positive);
    })
      where
        shorter : sub_u64 (add_u64 fs.start size) 1 ≡ fs.start + size - 1
        shorter = unfold sub_u64 add_u64 in ground (arith, e, room.bound, positive)
