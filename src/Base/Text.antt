-- ===== src/Base/Text.antt =====
-- The functions of Go's `strings` and `strconv` that the program calls, over native texts.
use Prim.Native.Nat.{ℕ, zero, suc, ◌+◌, ◌-◌, ◌*◌, ◌^◌}
use Prim.Native.Char.{Char, code}
use Prim.Native.String.{String, char_at, ◌++◌}
use mathlib.Core.Path.{◌≡◌, refl}
use mathlib.Core.Bool.{Bool, true, false, ◌&&◌, ◌||◌, not}
use mathlib.Core.Option.{Option, none, some}
use mathlib.Core.List.{List, [], ◌∷◌}
use package.carina.Base.Tests.{ltb, leb, nat_eq, if◌then◌else◌}
use package.carina.Base.Int.{ℤ, pos, negsuc, sub_ℕ}

-- s + t
infixl 65 ◌<>◌
abbrev pub ◌<>◌ : String → String → String
s <> t = s ++ t

-- strings.ToLower on ASCII; the names of device groups are ASCII.
lower_char : Char → Char
lower_char c =
    if leb 65 (code c) && leb (code c) 90
    then char_at "abcdefghijklmnopqrstuvwxyz" (code c - 65)
    else c

unfoldable pub to_lower : String → String
unfolding lower_char
to_lower String.[] = String.[]
to_lower (String.◌∷◌ c s) = String.◌∷◌ (lower_char c) (to_lower s)

-- `some rest` when the second text is the first followed by `rest`.
unfoldable pub strip_prefix : String → String → Option String
strip_prefix String.[] s = some s
strip_prefix (String.◌∷◌ c p) String.[] = none
strip_prefix (String.◌∷◌ c p) (String.◌∷◌ d s) =
    if nat_eq (code c) (code d) then strip_prefix p s else none

-- strings.HasPrefix(s, p)
unfoldable pub has_prefix : String → String → Bool
unfolding strip_prefix
has_prefix s p = elim (strip_prefix p s) [ none ↦ false | some r ↦ true ]

-- strings.TrimPrefix(s, p)
unfoldable pub trim_prefix : String → String → String
unfolding strip_prefix
trim_prefix s p = elim (strip_prefix p s) [ none ↦ s | some r ↦ r ]

-- s[n:] of an ASCII text; none out of range
unfoldable pub slice_from : ℕ → String → Option String
slice_from zero s = some s
slice_from (suc n) String.[] = none
slice_from (suc n) (String.◌∷◌ c s) = slice_from n s

-- A text in which a character does not stand
unfoldable pub without : ℕ → String → Bool
without char String.[] = true
without char (String.◌∷◌ c s) = not (nat_eq (code c) char) && without char s

-- strings.Contains(s, sub)
unfoldable pub contains : String → String → Bool
unfolding has_prefix
contains String.[] sub = has_prefix String.[] sub
contains (String.◌∷◌ c s) sub = has_prefix (String.◌∷◌ c s) sub || contains s sub

-- strings.Split(s, sep)[0], for a separator of one character
unfoldable pub before : ℕ → String → String
before sep String.[] = String.[]
before sep (String.◌∷◌ c s) = if nat_eq (code c) sep then String.[] else String.◌∷◌ c (before sep s)

-- strings.Split(s, sep), for a separator of one character
unfoldable pub add_char : Char → List String → List String
add_char c [] = String.◌∷◌ c String.[] ∷ []
add_char c (w ∷ ws) = String.◌∷◌ c w ∷ ws

unfoldable pub split : ℕ → String → List String
unfolding add_char
split sep String.[] = String.[] ∷ []
split sep (String.◌∷◌ c s) =
    if nat_eq (code c) sep then String.[] ∷ split sep s else add_char c (split sep s)

unfoldable pub digits_from : ℕ → String → Option ℕ
digits_from n String.[] = some n
digits_from n (String.◌∷◌ c s) =
    if leb 48 (code c) && leb (code c) 57 then digits_from (n * 10 + (code c - 48)) s else none

-- The digits that strconv reads; an empty text is no number.
unfoldable pub digits : String → Option ℕ
unfolding digits_from
digits String.[] = none
digits (String.◌∷◌ c s) = digits_from 0 (String.◌∷◌ c s)

-- strconv.ParseUint(s, 10, 64) as the program uses it, with the error dropped: the value is 0 on a
-- syntax error and the largest value out of range.
unfoldable pub parse_uint64 : String → ℕ
unfolding digits
parse_uint64 s = elim (digits s) [ none ↦ 0 | some n ↦ if ltb n (2 ^ 64) then n else 2 ^ 64 - 1 ]

in_int64 : Bool → Option ℕ → Option ℤ
in_int64 negative none = none
in_int64 true (some n) = if leb n (2 ^ 63) then some (sub_ℕ 0 n) else none
in_int64 false (some n) = if ltb n (2 ^ 63) then some (pos n) else none

-- strconv.ParseInt(s, 10, 64); none on a syntax error or out of range
unfoldable pub parse_int64 : String → Option ℤ
unfolding digits in_int64
parse_int64 String.[] = none
parse_int64 (String.◌∷◌ c s) =
    if nat_eq (code c) b'-'
    then in_int64 true (digits s)
    else if nat_eq (code c) b'+'
    then in_int64 false (digits s)
    else in_int64 false (digits (String.◌∷◌ c s))

-- `v, err := strconv.ParseInt(s, 10, 64)`, of which v: 0 on a syntax error, and the nearest value out
-- of range
clamped : Bool → Option ℕ → ℤ
clamped negative none = pos 0
clamped true (some n) = if leb n (2 ^ 63) then sub_ℕ 0 n else sub_ℕ 0 (2 ^ 63)
clamped false (some n) = if ltb n (2 ^ 63) then pos n else pos (2 ^ 63 - 1)

unfoldable pub parse_int64_value : String → ℤ
unfolding digits clamped
parse_int64_value String.[] = pos 0
parse_int64_value (String.◌∷◌ c s) =
    if nat_eq (code c) b'-'
    then clamped true (digits s)
    else if nat_eq (code c) b'+'
    then clamped false (digits s)
    else clamped false (digits (String.◌∷◌ c s))

signed_read : (parse_int64 "-12" ≡ some (negsuc 11)) × (parse_int64 "9223372036854775808" ≡ none)
unfolding parse_int64
signed_read = (refl, refl)

lowered : to_lower "Carina-VG-ssd" ≡ "carina-vg-ssd"
unfolding to_lower
lowered = refl

splitting : split b'/' "raw/vdb/1" ≡ "raw" ∷ "vdb" ∷ "1" ∷ []
unfolding split
splitting = refl

first_part : before b'/' "carina-raw/vdb" ≡ "carina-raw"
unfolding before
first_part = refl

found_inside : contains "carina-raw/vdb" "raw" ≡ true
unfolding contains
found_inside = refl

trimmed : trim_prefix "carina.storage.io/a" "carina.storage.io/" ≡ "a"
unfolding trim_prefix
trimmed = refl

number_read : parse_uint64 "16101933056" ≡ 16101933056
unfolding parse_uint64
number_read = refl
