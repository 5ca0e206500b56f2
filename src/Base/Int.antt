-- ===== src/Base/Int.antt =====
-- Signed integers over the native numbers, and Go's int64 and uint64 arithmetic on them.
use Prim.Native.Nat.{ℕ, suc, ◌+◌, ◌-◌, ◌*◌, ◌/◌, ◌%◌, ◌^◌, ◌≤◌, ◌<◌}
use mathlib.Core.Path.{◌≡◌, refl}
use mathlib.Core.Bool.{Bool, true, false}
use native.Mathlib.Omega.{arith}
use package.carina.Base.Tests.{ltb, leb, if◌then◌else◌}

-- `negsuc n` is -(n + 1).
pub data ℤ : Type 0 where
  pos : ℕ → ℤ
  negsuc : ℕ → ℤ

abbrev pub pos_part : ℤ → ℕ
pos_part (pos n) = n
pos_part (negsuc n) = 0

abbrev pub neg_part : ℤ → ℕ
neg_part (pos n) = 0
neg_part (negsuc n) = suc n

-- a - b, as an integer.
abbrev pub sub_ℕ : ℕ → ℕ → ℤ
sub_ℕ a b = if leb b a then pos (a - b) else negsuc (b - a - 1)

infixl 65 ◌+ℤ◌ ◌-ℤ◌
infixl 70 ◌*ℤ◌
infix 50 ◌≤ℤ◌ ◌<ℤ◌
unfoldable pub ◌+ℤ◌ : ℤ → ℤ → ℤ
a +ℤ b = sub_ℕ (pos_part a + pos_part b) (neg_part a + neg_part b)

unfoldable pub ◌-ℤ◌ : ℤ → ℤ → ℤ
a -ℤ b = sub_ℕ (pos_part a + neg_part b) (neg_part a + pos_part b)

unfoldable pub ◌*ℤ◌ : ℤ → ℤ → ℤ
a *ℤ b =
    sub_ℕ (pos_part a * pos_part b + neg_part a * neg_part b)
      (pos_part a * neg_part b + neg_part a * pos_part b)

abbrev pub ◌≤ℤ◌ : ℤ → ℤ → Type 0
a ≤ℤ b = pos_part a + neg_part b ≤ pos_part b + neg_part a

abbrev pub ◌<ℤ◌ : ℤ → ℤ → Type 0
a <ℤ b = pos_part a + neg_part b < pos_part b + neg_part a

abbrev pub ltb_ℤ : ℤ → ℤ → Bool
ltb_ℤ a b = ltb (pos_part a + neg_part b) (pos_part b + neg_part a)

abbrev pub leb_ℤ : ℤ → ℤ → Bool
leb_ℤ a b = leb (pos_part a + neg_part b) (pos_part b + neg_part a)

pub leb_ℤ→le : (a b : ℤ) → leb_ℤ a b ≡ true → a ≤ℤ b
leb_ℤ→le a b h = ground arith

pub not_leb_ℤ→le : (a b : ℤ) → leb_ℤ a b ≡ false → b ≤ℤ a
not_leb_ℤ→le a b h = ground arith

pub not_leb_ℤ→lt : (a b : ℤ) → leb_ℤ a b ≡ false → b <ℤ a
not_leb_ℤ→lt a b h = ground arith

pub ltb_ℤ→lt : (a b : ℤ) → ltb_ℤ a b ≡ true → a <ℤ b
ltb_ℤ→lt a b h = ground arith

pub not_ltb_ℤ→le : (a b : ℤ) → ltb_ℤ a b ≡ false → b ≤ℤ a
not_ltb_ℤ→le a b h = ground arith

pub +ℤ_parts :
    (a b : ℤ)
    → pos_part (a +ℤ b) + neg_part a + neg_part b ≡ neg_part (a +ℤ b) + pos_part a + pos_part b
unfolding ◌+ℤ◌
+ℤ_parts a b = ground arith

pub -ℤ_parts :
    (a b : ℤ)
    → pos_part (a -ℤ b) + neg_part a + pos_part b ≡ neg_part (a -ℤ b) + pos_part a + neg_part b
unfolding ◌-ℤ◌
-ℤ_parts a b = ground arith

pub eq_of_parts : (a b : ℤ) → pos_part a + neg_part b ≡ pos_part b + neg_part a → a ≡ b
eq_of_parts a b h = ground arith

pub ruleset int_laws = (arith, +ℤ_parts, -ℤ_parts, eq_of_parts)

-- The value of an int64 whose mathematical value is `a`: two's complement wrap-around.
unfoldable pub to_int64 : ℤ → ℤ
to_int64 (pos n) =
    if ltb (n % 2 ^ 64) (2 ^ 63) then pos (n % 2 ^ 64) else negsuc (2 ^ 64 - 1 - n % 2 ^ 64)
to_int64 (negsuc n) =
    if ltb (n % 2 ^ 64) (2 ^ 63) then negsuc (n % 2 ^ 64) else pos (2 ^ 64 - 1 - n % 2 ^ 64)

-- a + b, a - b and a * b on int64
unfoldable pub add64 : ℤ → ℤ → ℤ
add64 a b = to_int64 (a +ℤ b)

unfoldable pub sub64 : ℤ → ℤ → ℤ
sub64 a b = to_int64 (a -ℤ b)

unfoldable pub mul64 : ℤ → ℤ → ℤ
mul64 a b = to_int64 (a *ℤ b)

-- a / d, which Go truncates towards zero, for a positive constant d
unfoldable pub quot : ℤ → ℕ → ℤ
quot (pos n) d = pos (n / d)
quot (negsuc n) d = sub_ℕ 0 (suc n / d)

-- a >> 30, an arithmetic shift
unfoldable pub shr30 : ℤ → ℤ
shr30 (pos n) = pos (n / 2 ^ 30)
shr30 (negsuc n) = negsuc (n / 2 ^ 30)

-- a << 30 on int64
unfoldable pub shl30 : ℤ → ℤ
shl30 a = to_int64 (a *ℤ pos (2 ^ 30))

-- `(bytes-1)>>30 + 1`: a size in GiB, rounded up
unfoldable pub gb_up : ℤ → ℤ
gb_up bytes = add64 (shr30 (sub64 bytes (pos 1))) (pos 1)

-- uint64 subtraction
unfoldable pub sub_u64 : ℕ → ℕ → ℕ
sub_u64 a b = (a % 2 ^ 64 + 2 ^ 64 - b % 2 ^ 64) % 2 ^ 64

pub sub_u64-le : (a b : ℕ) → b ≤ a → a < 2 ^ 64 → sub_u64 a b ≡ a - b
unfolding sub_u64
sub_u64-le a b le bound = ground (arith, le, bound)

-- Below zero it wraps around.
pub sub_u64-lt : (a b : ℕ) → a < b → b < 2 ^ 64 → sub_u64 a b ≡ a + 2 ^ 64 - b
unfolding sub_u64
sub_u64-lt a b lt bound = ground (arith, lt, bound)

-- uint64 addition
unfoldable pub add_u64 : ℕ → ℕ → ℕ
add_u64 a b = (a + b) % 2 ^ 64

abbrev pub IsInt64 : ℤ → Type 0
IsInt64 a = (pos_part a < 2 ^ 63) × (neg_part a ≤ 2 ^ 63)

pub to_int64-eq : (a : ℤ) → IsInt64 a → to_int64 a ≡ a
unfolding to_int64
to_int64-eq (pos n) h = ground arith
to_int64-eq (negsuc n) h = ground arith

-- Rounding a non-negative size up to GiB never wraps.
pub gb_up-pos : (n : ℕ) → n < 2 ^ 63 → gb_up (pos n) ≡ pos ((n + (2 ^ 30 - 1)) / 2 ^ 30)
unfolding gb_up add64 sub64 to_int64 shr30 ◌+ℤ◌ ◌-ℤ◌
gb_up-pos n h = ground arith

gb_up_tests : (gb_up (pos 0) ≡ pos 0) × (gb_up (pos 1) ≡ pos 1) × (gb_up (pos (2 ^ 30 + 1)) ≡ pos 2)
unfolding gb_up add64 sub64 to_int64 shr30 ◌+ℤ◌ ◌-ℤ◌
gb_up_tests = (refl, refl, refl)
