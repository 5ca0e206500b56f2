-- ===== src/Lvm/Report/Roundtrip.antt =====
-- Printing a report and parsing it.
use carina.Base.{
  without, String, ℕ, zero, suc, ◌≡◌, refl, ap, ◌∙◌, true, false, List, [], ◌∷◌, map, split, nat_eq,
  Bool-cases, inl, inr, All, ◌==◌, eq_iff,
}
use carina.Errors.{ok}
use carina.Lvm.Report.{Row, remove_all, row_of, rows_of, parse_report}
use carina.Lvm.Report.Printed.{
  cat, without-cat, remove_all-without, remove_all-cat, split-without, split-cat,
}
use Prim.Native.Char.{Char, char}
use carina.Lvm.Report.Layout.{
  IsPlain, PlainField, PlainRow, join, comma_char, newline_char, print_field, print_row,
  print_report, Line, spaces, space_char, print_line, remove_all-spaces, remove_all-kept,
  bare_field, bare_row, without-join, split-join, remove_all-join, cat-nil,
}

-- A field
module _ (k v : String) (hk : IsPlain k) (hv : IsPlain v) where
  unquoted_field : remove_all b'\'' (print_field (k, v)) ≡ bare_field (k, v)
  unfolding print_field bare_field
  unquoted_field =
      remove_all-cat b'\'' k _
      ∙ rw
          (
            remove_all-without b'\'' k hk.quote,
            remove_all-cat b'\'' "='" (cat v "'"),
            remove_all-cat b'\'' v "'",
            remove_all-without b'\'' v hv.quote,
          )
          (unfold cat remove_all in ap (λ t. cat k (String.◌∷◌ (char b'=' tt) t)) (cat-nil v))

  bare_field-without :
      (n : ℕ)
      → nat_eq b'=' n ≡ false
      → without n k ≡ true
      → without n v ≡ true
      → without n (bare_field (k, v)) ≡ true
  unfolding bare_field
  bare_field-without n other wk wv = without-cat n k _ wk (unfold without cat in rw (other, wv))

  split-bare_field : split b'=' (bare_field (k, v)) ≡ k ∷ v ∷ []
  unfolding bare_field cat
  split-bare_field =
      split-cat (char b'=' tt) k v hk.equals ∙ ap (λ l. k ∷ l) (split-without b'=' v hv.equals)

bare_fields-without :
    (n : ℕ) (row : Row)
    → nat_eq b'=' n ≡ false
    → ((s : String) → IsPlain s → without n s ≡ true)
    → All PlainField row
    → All (λ x. without n x ≡ true) (map bare_field row)
bare_fields-without n [] other plain h = tt
bare_fields-without n ((k, v) ∷ row) other plain h = (
  bare_field-without k v h.0.0 h.0.1 n other (plain k h.0.0) (plain v h.0.1),
  bare_fields-without n row other plain h.1,
)

unquoted_fields :
    (row : Row)
    → All PlainField row
    → map (remove_all b'\'') (map print_field row) ≡ map bare_field row
unquoted_fields [] h = refl
unquoted_fields ((k, v) ∷ row) h = rw (unquoted_field k v h.0.0 h.0.1, unquoted_fields row h.1)

row_of-fields : (row : Row) → All PlainField row → row_of (map bare_field row) ≡ ok row
unfolding row_of
row_of-fields [] h = refl
row_of-fields ((k, v) ∷ row) h = rw (split-bare_field k v h.0.0 h.0.1, row_of-fields row h.1)

-- A row
fields_of : (row : Row) → PlainRow row → All PlainField row
fields_of [] h = absurd h
fields_of (f ∷ row) h = h

bare_row-without :
    (n : ℕ) (row : Row)
    → nat_eq b'=' n ≡ false
    → nat_eq b',' n ≡ false
    → ((s : String) → IsPlain s → without n s ≡ true)
    → PlainRow row
    → without n (bare_row row) ≡ true
unfolding bare_row
bare_row-without n row other sep plain h =
    without-join n comma_char (map bare_field row) sep
      (bare_fields-without n row other plain (fields_of row h))

split-bare_row : (row : Row) → PlainRow row → split b',' (bare_row row) ≡ map bare_field row
unfolding bare_row
split-bare_row [] h = absurd h
split-bare_row (f ∷ row) h =
    split-join comma_char (bare_field f) (map bare_field row)
      (bare_fields-without b',' (f ∷ row) refl (λ s p. p.comma) h)

unquoted_row : (row : Row) → PlainRow row → remove_all b'\'' (print_row row) ≡ bare_row row
unfolding print_row bare_row
unquoted_row row h =
    remove_all-join b'\'' comma_char (map print_field row) refl
    ∙ ap (join comma_char) (unquoted_fields row (fields_of row h))

-- The report
abbrev bare_line : Line → String
bare_line (indent, row) = cat (spaces indent) (bare_row row)

unquoted_lines :
    (lines : List Line)
    → All PlainRow (map (λ l. l.1) lines)
    → map (remove_all b'\'') (map print_line lines) ≡ map bare_line lines
unfolding print_line
unquoted_lines [] h = refl
unquoted_lines ((indent, row) ∷ lines) h = rw (
  remove_all-cat b'\'' (spaces indent) (print_row row),
  remove_all-kept b'\'' indent refl,
  unquoted_row row h.0,
  unquoted_lines lines h.1,
)

unspaced_lines :
    (lines : List Line)
    → All PlainRow (map (λ l. l.1) lines)
    → map (remove_all b' ') (map bare_line lines) ≡ map bare_row (map (λ l. l.1) lines)
unfolding cat
unspaced_lines [] h = refl
unspaced_lines ((indent, row) ∷ lines) h = rw (
  remove_all-cat b' ' (spaces indent) (bare_row row),
  remove_all-spaces indent,
  remove_all-without b' ' (bare_row row) (bare_row-without b' ' row refl refl (λ s p. p.space) h.0),
  unspaced_lines lines h.1,
)

bare_rows-without :
    (n : ℕ) (rows : List Row)
    → nat_eq b'=' n ≡ false
    → nat_eq b',' n ≡ false
    → ((s : String) → IsPlain s → without n s ≡ true)
    → All PlainRow rows
    → All (λ x. without n x ≡ true) (map bare_row rows)
bare_rows-without n [] other sep plain h = tt
bare_rows-without n (row ∷ rows) other sep plain h =
    (bare_row-without n row other sep plain h.0, bare_rows-without n rows other sep plain h.1)

rows_of-lines : (rows : List Row) → All PlainRow rows → rows_of (map bare_row rows) ≡ ok rows
unfolding rows_of
rows_of-lines [] h = refl
rows_of-lines (row ∷ rows) h =
    rw (split-bare_row row h.0, row_of-fields row (fields_of row h.0), rows_of-lines rows h.1)

-- What is left of a report after the two replacements
cleaned :
    (lines : List Line)
    → All PlainRow (map (λ l. l.1) lines)
    → remove_all b' ' (remove_all b'\'' (print_report lines))
      ≡ join newline_char (map bare_row (map (λ l. l.1) lines))
unfolding print_report
cleaned lines h =
    ap (remove_all b' ') (
      remove_all-join b'\'' newline_char (map print_line lines) refl
      ∙ ap (join newline_char) (unquoted_lines lines h))
    ∙ remove_all-join b' ' newline_char (map bare_line lines) refl
    ∙ ap (join newline_char) (unspaced_lines lines h)

-- A report is not the empty text.
cons_filled : (c : Char) (s : String) → (String.◌∷◌ c s == "") ≡ false
cons_filled c s = elim (Bool-cases (String.◌∷◌ c s == "")) [
  | inl same ↦ absurd (cc ((eq_iff (String.◌∷◌ c s) "").0 same))
  | inr other ↦ other
]

cat_filled : (s : String) (c : Char) (t : String) → (cat s (String.◌∷◌ c t) == "") ≡ false
unfolding cat
cat_filled String.[] c t = cons_filled c t
cat_filled (String.◌∷◌ d s) c t = cons_filled d _

join_filled :
    (c : Char) (x : String) (xs : List String) → (x == "") ≡ false → (join c (x ∷ xs) == "") ≡ false
unfolding join
join_filled c x [] h = h
join_filled c x (y ∷ xs) h = cat_filled x c (join c (y ∷ xs))

spaced_filled :
    (indent : ℕ) (s : String) → (s == "") ≡ false → (cat (spaces indent) s == "") ≡ false
unfolding cat spaces
spaced_filled zero s h = h
spaced_filled (suc n) s h = cons_filled space_char _

filled :
    (indent : ℕ) (k v : String) (row : Row) (lines : List Line)
    → (print_report ((indent, (k, v) ∷ row) ∷ lines) == "") ≡ false
unfolding print_report print_line print_row
filled indent k v row lines =
    join_filled newline_char (print_line (indent, (k, v) ∷ row)) (map print_line lines) (
      spaced_filled indent _
        (join_filled comma_char (print_field (k, v)) (map print_field row) field_filled))
  where
    field_filled : (print_field (k, v) == "") ≡ false
    field_filled =
        unfold print_field cat in
        cat_filled k (char b'=' tt) (String.◌∷◌ (char b'\'' tt) (cat v "'"))

-- Parsing lines that are printed for some rows, each behind any number of spaces, gives these rows.
-- No name and no value of a row has a quote, a space, a comma, an equals sign or a line break, and
-- every row has a field.
pub parse_report-print_report :
    (lines : List Line)
    → All PlainRow (map (λ l. l.1) lines)
    → parse_report (print_report lines) ≡ ok (map (λ l. l.1) lines)
unfolding parse_report
parse_report-print_report [] h = unfold print_report in refl
parse_report-print_report ((indent, []) ∷ lines) h = absurd h.0
parse_report-print_report ((indent, (k, v) ∷ row) ∷ lines) h =
    let rows = map (λ l. l.1) lines in
    rw
      (
        filled indent k v row lines,
        cleaned ((indent, (k, v) ∷ row) ∷ lines) h,
        split-join newline_char _ _
            (bare_rows-without b'\n' (((k, v) ∷ row) ∷ rows) refl refl (λ s p. p.newline) h),
      )
      (rows_of-lines (((k, v) ∷ row) ∷ rows) h)
