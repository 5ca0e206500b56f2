-- ===== src/Partition/Create/Numbers.antt =====
-- The number of a new partition.
use carina.Base.{
  ℕ, zero, suc, ◌+◌, ◌≤◌, ◌<◌, ◌≡◌, refl, subst, arith, Bool, true, false, ◌⊎◌, inl, inr,
  Bool-cases, List, ltb,
}
use carina.Partition.{Part}
use carina.Partition.Create.{exists, open_number}

-- The lowest number from `low` on that no partition has
pub record IsOpen (low number : ℕ) (parts : List (ℕ × Part)) : Type 0 where
  pub above : low ≤ number
  pub free : exists number parts ≡ false
  pub lowest : (i : ℕ) → low ≤ i → i < number → exists i parts ≡ true

IsOpen-next :
    (low number : ℕ) (parts : List (ℕ × Part))
    → exists low parts ≡ true
    → IsOpen (suc low) number parts
    → IsOpen low number parts
IsOpen-next low number parts taken o = record {
  above = omega (arith, o.above);
  free = o.free;
  lowest = λ i le lt. next i (ltb low i) refl le lt;
}
  where
    next : (i : ℕ) (b : Bool) → ltb low i ≡ b → low ≤ i → i < number → exists i parts ≡ true
    next i true e le lt = o.lowest i (ground (arith, e)) lt
    next i false e le lt = subst (λ j. exists j parts ≡ true) (ground (arith, e, le)) taken

pub open_number-IsOpen :
    (count low : ℕ) (parts : List (ℕ × Part))
    → (open_number count low parts ≡ 0)
      ⊎ (IsOpen low (open_number count low parts) parts
          × (open_number count low parts < low + count))
unfolding open_number
open_number-IsOpen zero low parts = inl refl
open_number-IsOpen (suc count) low parts = elim (Bool-cases (exists low parts)) [
  | inr free ↦ rw free (
      inr (
        record {
          above = omega arith;
          free = free;
          lowest = λ i le lt. absurd (omega (arith, le, lt));
        },
        omega arith,
      ))
  | inl taken ↦ rw taken (later (open_number-IsOpen count (suc low) parts) taken)
]
  where
    later :
        {n : ℕ}
        → (n ≡ 0) ⊎ (IsOpen (suc low) n parts × (n < suc low + count))
        → exists low parts ≡ true
        → (n ≡ 0) ⊎ (IsOpen low n parts × (n < low + suc count))
    later (inl none_left) taken = inl none_left
    later {n} (inr o) taken = inr (IsOpen-next low n parts taken o.0, omega (arith, o.1))
