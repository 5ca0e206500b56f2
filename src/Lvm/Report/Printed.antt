-- ===== src/Lvm/Report/Printed.antt =====
-- How the lvm commands print a report with `--separator=, --nameprefixes`, as their manual says: a
-- line per row, and in it NAME='value' between commas. Texts are put together by recursion, so that
-- they can be read at any value.
use carina.Base.{
  String, ℕ, ◌≡◌, refl, Bool, true, false, ◌&&◌, not, [], ◌∷◌, without, split, add_char, nat_eq,
  arith, Bool-cases, inl, inr,
}
use carina.Lvm.Report.{remove_all}
use Prim.Native.Char.{Char, code}

unfoldable pub cat : String → String → String
cat String.[] t = t
cat (String.◌∷◌ c s) t = String.◌∷◌ c (cat s t)

both : (a b : Bool) → not a && b ≡ true → (a ≡ false) × (b ≡ true)
both true b h = cc h
both false b h = (refl, h)

without-cons :
    (char : ℕ) (c : Char) (s : String)
    → without char (String.◌∷◌ c s) ≡ true
    → (nat_eq (code c) char ≡ false) × (without char s ≡ true)
unfolding without
without-cons char c s h = both (nat_eq (code c) char) (without char s) h

pub without-cat :
    (char : ℕ) (s t : String)
    → without char s ≡ true
    → without char t ≡ true
    → without char (cat s t) ≡ true
unfolding without cat
without-cat char String.[] t hs ht = ht
without-cat char (String.◌∷◌ c s) t hs ht =
    let h = without-cons char c s hs in rw (h.0, without-cat char s t h.1 ht)

pub remove_all-without : (char : ℕ) (s : String) → without char s ≡ true → remove_all char s ≡ s
unfolding remove_all
remove_all-without char String.[] h = refl
remove_all-without char (String.◌∷◌ c s) h =
    let g = without-cons char c s h in rw (g.0, remove_all-without char s g.1)

pub remove_all-cat :
    (char : ℕ) (s t : String)
    → remove_all char (cat s t) ≡ cat (remove_all char s) (remove_all char t)
unfolding cat remove_all
remove_all-cat char String.[] t = refl
remove_all-cat char (String.◌∷◌ c s) t = elim (Bool-cases (nat_eq (code c) char)) [
  | inl same ↦ rw (same, remove_all-cat char s t)
  | inr other ↦ rw (other, remove_all-cat char s t)
]

pub split-without : (sep : ℕ) (s : String) → without sep s ≡ true → split sep s ≡ s ∷ []
unfolding split add_char
split-without sep String.[] h = refl
split-without sep (String.◌∷◌ c s) h =
    let g = without-cons sep c s h in rw (g.0, split-without sep s g.1)

pub split-cat :
    (c : Char) (s t : String)
    → without (code c) s ≡ true
    → split (code c) (cat s (String.◌∷◌ c t)) ≡ s ∷ split (code c) t
unfolding split add_char cat
split-cat c String.[] t h = rw (same (code c))
  where
    same : (n : ℕ) → nat_eq n n ≡ true
    same n = ground arith
split-cat c (String.◌∷◌ d s) t h =
    let g = without-cons (code c) d s h in rw (g.0, split-cat c s t g.1)
