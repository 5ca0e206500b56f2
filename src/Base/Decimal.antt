-- ===== src/Base/Decimal.antt =====
-- Numbers in decimal, as `%d` prints them.
use Prim.Native.Nat.{ℕ, zero, suc, ◌+◌, ◌*◌, ◌/◌, ◌%◌, ◌^◌, ◌<◌, compare, Ordering}
use Prim.Native.Char.{Char, char, IsScalar}
use Prim.Native.String.{String}
use mathlib.Core.Path.{◌≡◌, refl, ap, ◌∙◌}
use mathlib.Core.Logic.{inl, inr}
use mathlib.Core.Bool.{true, false, ◌&&◌}
use mathlib.Core.Option.{some}
use native.Mathlib.Omega.{arith}
use native.Mathlib.Numerals.{unary_clauses}
use package.carina.Base.Tests.{Bool-cases, nat_eq, ltb, leb}
use package.carina.Base.Int.{ℤ, pos, negsuc}
use package.carina.Base.Text.{◌<>◌, digits, digits_from, parse_uint64, without}

pub scalar : (n : ℕ) → n < 55296 → IsScalar n
scalar n h = rw (below n h) tt
  where
    below : (n : ℕ) → n < 55296 → compare n 55296 ≡ Ordering.lt
    below n h = ground (arith, h)

-- The character of a digit
digit : ℕ → Char
digit d = char (48 + d % 10) (scalar (48 + d % 10) (omega arith))

-- The digits of `n` in front of a text, at most as many as the first argument says
unfoldable put : ℕ → ℕ → String → String
unfolding digit
put zero n s = s
put (suc fuel) n s = elim (ltb n 10) [
  | true ↦ String.◌∷◌ (digit n) s
  | false ↦ put fuel (n / 10) (String.◌∷◌ (digit (n % 10)) s)
]

-- fmt.Sprint of a uint64, which has at most twenty digits
unfoldable pub show_uint : ℕ → String
unfolding put
show_uint n = put 20 n String.[]

unfoldable pub show_int : ℤ → String
unfolding show_uint
show_int (pos n) = show_uint n
show_int (negsuc n) = "-" <> show_uint (suc n)

shown :
    (show_uint 0 ≡ "0") × (show_uint 16101933056 ≡ "16101933056") × (show_int (negsuc 11) ≡ "-12")
unfolding show_uint show_int put digit
shown = (refl, refl, refl)

-- A digit in front of a text is read as the next one.
digits_from-digit :
    (m d n : ℕ) (s : String)
    → d < 10
    → m * 10 + d ≡ n
    → digits_from m (String.◌∷◌ (digit d) s) ≡ digits_from n s
unfolding digits_from digit
digits_from-digit m d n s h e = rw (low, high) (ap (λ k. digits_from k s) (omega (arith, h, e)))
  where
    low : leb 48 (48 + d % 10) ≡ true
    low = ground arith

    high : leb (48 + d % 10) 57 ≡ true
    high = ground arith

digits_from-put :
    (fuel n : ℕ) (s : String) → n < 10 ^ fuel → digits_from 0 (put fuel n s) ≡ digits_from n s
unfolding put
digits_from-put zero n s h = ap (λ m. digits_from m s) (omega (arith, h))
digits_from-put (suc fuel) n s h = elim (Bool-cases (ltb n 10)) [
  | inl small ↦ rw (small, put) (digits_from-digit 0 n n s (ground (arith, small)) (omega arith))
  | inr large ↦
      rw (large, put)
        (digits_from-put fuel (n / 10) _ (fewer (10 ^ fuel) (simp unary_clauses at h))
          ∙ digits_from-digit (n / 10) (n % 10) n s (omega arith) (omega arith))
]
  where
    fewer : (p : ℕ) → n < p * 10 → n / 10 < p
    fewer p h = omega (arith, h)

-- A number has at least one digit.
Filled : String → Type 0
Filled String.[] = ⊥
Filled (String.◌∷◌ c s) = Unit

put-Filled : (fuel n : ℕ) (s : String) → Filled s → Filled (put fuel n s)
unfolding put Filled
put-Filled zero n s h = h
put-Filled (suc fuel) n s h = elim (Bool-cases (ltb n 10)) [
  | inl less ↦ rw (less, put) tt
  | inr more ↦ rw (more, put) (put-Filled fuel (n / 10) _ tt)
]

put-first : (fuel n : ℕ) (s : String) → Filled (put (suc fuel) n s)
unfolding put Filled
put-first fuel n s = elim (Bool-cases (ltb n 10)) [
  | inl less ↦ rw (less, put) tt
  | inr more ↦ rw (more, put) (put-Filled fuel (n / 10) _ tt)
]

digits-Filled : (s : String) → Filled s → digits s ≡ digits_from 0 s
unfolding digits Filled
digits-Filled String.[] h = absurd h
digits-Filled (String.◌∷◌ c s) h = refl

digits-show_uint : (n : ℕ) → n < 2 ^ 64 → digits (show_uint n) ≡ some n
unfolding show_uint
digits-show_uint n h =
    digits-Filled (put 20 n String.[]) (put-first 19 n String.[])
    ∙ digits_from-put 20 n String.[] (omega (arith, h))
    ∙ unfold digits_from in refl

-- strconv.ParseUint reads what `%d` prints.
pub parse_uint64-show_uint : (n : ℕ) → n < 2 ^ 64 → parse_uint64 (show_uint n) ≡ n
unfolding parse_uint64
parse_uint64-show_uint n h = rw (digits-show_uint n h, parse_uint64) (ground (arith, h))

without-put :
    (other fuel n : ℕ) (s : String)
    → leb 48 other && leb other 57 ≡ false
    → without other s ≡ true
    → without other (put fuel n s) ≡ true
unfolding put without digit
without-put other zero n s apart h = h
without-put other (suc fuel) n s apart h = elim (Bool-cases (ltb n 10)) [
  | inl less ↦ rw (less, put) (rw (differs n) h)
  | inr more ↦ rw (more, put) (without-put other fuel (n / 10) _ apart (rw (differs (n % 10)) h))
]
  where
    differs : (d : ℕ) → nat_eq (48 + d % 10) other ≡ false
    differs d = ground (arith, apart)

-- A character that is no digit does not stand in a number.
pub without-show_uint :
    (other n : ℕ) → leb 48 other && leb other 57 ≡ false → without other (show_uint n) ≡ true
unfolding show_uint
without-show_uint other n apart = without-put other 20 n String.[] apart (unfold without in refl)
