-- ===== src/Lvm/Report/Layout.antt =====
-- How a report is laid out: what lvm prints for some rows, and the same without the quotes.
use carina.Base.{
  without, String, ℕ, zero, suc, ◌≡◌, refl, ap, ◌∙◌, true, false, List, [], ◌∷◌, map, split, nat_eq,
  All,
}
use carina.Lvm.Report.{Row, remove_all}
use carina.Lvm.Report.Printed.{cat, without-cat, remove_all-cat, split-without, split-cat}
use Prim.Native.Char.{Char, char, code}

-- A text without the characters that a report is made of
pub record IsPlain (s : String) : Type 0 where
  pub quote : without b'\'' s ≡ true
  pub space : without b' ' s ≡ true
  pub comma : without b',' s ≡ true
  pub equals : without b'=' s ≡ true
  pub newline : without b'\n' s ≡ true

abbrev pub PlainField : String × String → Type 0
PlainField (k, v) = IsPlain k × IsPlain v

-- A line has at least one field.
abbrev pub PlainRow : Row → Type 0
PlainRow [] = ⊥
PlainRow (f ∷ row) = All PlainField (f ∷ row)

unfoldable pub join : Char → List String → String
unfolding cat
join c [] = ""
join c (x ∷ []) = x
join c (x ∷ y ∷ xs) = cat x (String.◌∷◌ c (join c (y ∷ xs)))

abbrev pub comma_char : Char
comma_char = char b',' tt

abbrev pub newline_char : Char
newline_char = char b'\n' tt

unfoldable pub print_field : String × String → String
unfolding cat
print_field (k, v) = cat k (cat "='" (cat v "'"))

unfoldable pub print_row : Row → String
unfolding join print_field
print_row row = join comma_char (map print_field row)

abbrev pub space_char : Char
space_char = char b' ' tt

unfoldable pub spaces : ℕ → String
spaces zero = ""
spaces (suc n) = String.◌∷◌ space_char (spaces n)

-- A row and the number of spaces that the line begins with
abbrev pub Line : Type 0
Line = ℕ × Row

unfoldable pub print_line : Line → String
unfolding cat spaces print_row
print_line (indent, row) = cat (spaces indent) (print_row row)

unfoldable pub print_report : List Line → String
unfolding join print_line
print_report lines = join newline_char (map print_line lines)

abbrev pub indented : Row → Line
indented row = (2, row)

-- lvm begins each line with two spaces. The executor trims its output, which takes away those of
-- the first line and the line break at the end.
unfoldable pub trimmed : List Row → List Line
trimmed [] = []
trimmed (row ∷ rows) = (0, row) ∷ map indented rows

-- The same without the quotes
unfoldable pub bare_field : String × String → String
bare_field (k, v) = cat k (cat "=" v)

unfoldable pub bare_row : Row → String
unfolding bare_field
bare_row row = join comma_char (map bare_field row)

pub remove_all-spaces : (n : ℕ) → remove_all b' ' (spaces n) ≡ ""
unfolding remove_all spaces
remove_all-spaces zero = refl
remove_all-spaces (suc n) = remove_all-spaces n

pub remove_all-kept :
    (removed n : ℕ) → nat_eq b' ' removed ≡ false → remove_all removed (spaces n) ≡ spaces n
unfolding remove_all spaces
remove_all-kept removed zero other = refl
remove_all-kept removed (suc n) other = rw (other, remove_all-kept removed n other)

pub trimmed-rows : (rows : List Row) → map (λ l. l.1) (trimmed rows) ≡ rows
unfolding trimmed
trimmed-rows [] = refl
trimmed-rows (row ∷ rows) = ap (λ l. row ∷ l) (later rows)
  where
    later : (rs : List Row) → map (λ l. l.1) (map indented rs) ≡ rs
    later [] = refl
    later (r ∷ rs) = ap (λ l. r ∷ l) (later rs)

pub without-join :
    (n : ℕ) (c : Char) (xs : List String)
    → nat_eq (code c) n ≡ false
    → All (λ x. without n x ≡ true) xs
    → without n (join c xs) ≡ true
unfolding join without
without-join n c [] other h = refl
without-join n c (x ∷ []) other h = h.0
without-join n c (x ∷ y ∷ xs) other h =
    without-cat n x _ h.0 (rw (other, without-join n c (y ∷ xs) other h.1))

pub split-join :
    (c : Char) (x : String) (xs : List String)
    → All (λ x. without (code c) x ≡ true) (x ∷ xs)
    → split (code c) (join c (x ∷ xs)) ≡ x ∷ xs
unfolding join
split-join c x [] h = split-without (code c) x h.0
split-join c x (y ∷ xs) h =
    split-cat c x (join c (y ∷ xs)) h.0 ∙ ap (λ l. x ∷ l) (split-join c y xs h.1)

pub remove_all-join :
    (n : ℕ) (c : Char) (xs : List String)
    → nat_eq (code c) n ≡ false
    → remove_all n (join c xs) ≡ join c (map (remove_all n) xs)
unfolding join remove_all
remove_all-join n c [] other = refl
remove_all-join n c (x ∷ []) other = refl
remove_all-join n c (x ∷ y ∷ xs) other =
    remove_all-cat n x _
    ∙ ap (cat (remove_all n x)) (rw (other, remove_all-join n c (y ∷ xs) other))

pub cat-nil : (s : String) → cat s "" ≡ s
unfolding cat
cat-nil String.[] = refl
cat-nil (String.◌∷◌ c s) = ap (String.◌∷◌ c) (cat-nil s)
