-- ===== src/Csi/Request/Sizes.antt =====
-- The sizes that convertRequestCapacity gives.
use carina.Base.{
  ℕ, ℤ, pos, negsuc, ◌+◌, ◌*◌, ◌/◌, ◌-◌, ◌^◌, ◌≤◌, ◌<◌, ◌≤ℤ◌, ◌≡◌, ◌⊎◌, inl, inr, refl, arith, ltb,
  leb, gb_up, gb_up-pos, if◌then◌else◌, Bool-cases, IsInt64,
}
use carina.Errors.{plain, Error, ok, err}
use carina.Csi.Request.{exceeds, convert_request_capacity}

-- The size in GiB is at least 1, holds the bytes asked for, and is less than 1 GiB above them unless
-- it is the least size, 1.
pub record Rounds (bytes : ℤ) (gb : ℤ) : Type 0 where
  pub asked : ℕ
  pub same_bytes : bytes ≡ pos asked
  pub size : ℕ
  pub same : gb ≡ pos size
  pub positive : 1 ≤ size
  pub holds : asked ≤ size * 2 ^ 30
  pub tight : (size ≡ 1) ⊎ (size * 2 ^ 30 < asked + 2 ^ 30)

-- Neither size is negative, and the limit, if there is one, is not below the request.
pub record IsFeasible (bytes limit : ℤ) : Type 0 where
  pub bytes_known : pos 0 ≤ℤ bytes
  pub limit_known : pos 0 ≤ℤ limit
  pub within : (limit ≡ pos 0) ⊎ (bytes ≤ℤ limit)

rounded : (n : ℕ) → n < 2 ^ 63 → ok (gb_up (pos n)) ≡ ok (pos ((n + (2 ^ 30 - 1)) / 2 ^ 30))
rounded n h = rw (gb_up-pos n h)

-- The least size stands for no size; otherwise the size is rounded up.
size_of : ℕ → ℕ
size_of n = if leb n 0 then 1 else (n + (2 ^ 30 - 1)) / 2 ^ 30

Rounds-size_of : (n : ℕ) → Rounds (pos n) (pos (size_of n))
unfolding size_of
Rounds-size_of n = record {
  asked = n;
  same_bytes = refl;
  size = size_of n;
  same = refl;
  positive = ground arith;
  holds = ground arith;
  tight = ground arith;
}

feasible :
    (n l : ℕ)
    → n < 2 ^ 63
    → (l ≡ 0) ⊎ (n ≤ l)
    → convert_request_capacity (pos n) (pos l) ≡ ok (pos (size_of n))
unfolding convert_request_capacity size_of
feasible n l h within = rw (gb_up-pos n h) (ground (arith, within))

infeasible :
    (n l : ℕ) → 0 < l → l < n → (e : Error) × (convert_request_capacity (pos n) (pos l) ≡ err e)
unfolding convert_request_capacity
infeasible n l given above = (exceeds (pos n) (pos l), ground (arith, given, above))

-- The two outcomes of the conversion
pub data Converted (bytes limit : ℤ) : Type 0 where
  taken :
      (gb : ℤ)
      → IsFeasible bytes limit
      → convert_request_capacity bytes limit ≡ ok gb
      → Rounds bytes gb
      → Converted bytes limit
  turned_down :
      (e : Error)
      → ¬ IsFeasible bytes limit
      → convert_request_capacity bytes limit ≡ err e
      → Converted bytes limit

converted_within : (n l : ℕ) → n < 2 ^ 63 → (l ≡ 0) ⊎ (n ≤ l) → Converted (pos n) (pos l)
converted_within n l h within =
    taken (pos (size_of n))
      (record {
        bytes_known = omega arith;
        limit_known = omega arith;
        within = ground (arith, within);
      })
      (feasible n l h within) (Rounds-size_of n)

not_within : (n l : ℕ) → 0 < l → l < n → ¬ IsFeasible (pos n) (pos l)
not_within n l given above f = within f.within
  where
    within : (pos l ≡ pos 0) ⊎ (pos n ≤ℤ pos l) → ⊥
    within (inl zero) = ground (arith, zero, given)
    within (inr le) = omega (arith, le, above)

converted_above : (n l : ℕ) → 0 < l → l < n → Converted (pos n) (pos l)
converted_above n l given above =
    let x = infeasible n l given above in turned_down x.0 (not_within n l given above) x.1

-- A size given in an int64 is taken if neither it nor the limit is negative and the limit, if there
-- is one, is not below it, with the size rounded up to GiB and at least 1; it is refused otherwise.
pub convert_request_capacity_lem : (bytes limit : ℤ) → IsInt64 bytes → Converted bytes limit
unfolding convert_request_capacity
convert_request_capacity_lem (negsuc n) limit h =
    turned_down (plain "required capacity must not be negative") below (ground arith)
  where
    below : ¬ IsFeasible (negsuc n) limit
    below f = omega (arith, f.bytes_known)
convert_request_capacity_lem (pos n) (negsuc l) h =
    turned_down (plain "capacity limit must not be negative") below (ground arith)
  where
    below : ¬ IsFeasible (pos n) (negsuc l)
    below f = omega (arith, f.limit_known)
convert_request_capacity_lem (pos n) (pos l) h = elim (Bool-cases (ltb 0 l)) [
  | inr free ↦ converted_within n l h.0 (inl (ground (arith, free)))
  | inl given ↦ elim (Bool-cases (ltb l n)) [
    | inl above ↦ converted_above n l (ground (arith, given)) (ground (arith, above))
    | inr within ↦ converted_within n l h.0 (inr (ground (arith, within)))
  ]
]
