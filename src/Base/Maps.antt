-- ===== src/Base/Maps.antt =====
-- Go maps with text keys, as association lists. Iteration follows the order of the list, which a
-- statement leaves arbitrary.
use Prim.Native.String.{String}
use mathlib.Core.Path.{◌≡◌, refl}
use mathlib.Core.Option.{Option, none, some}
use mathlib.Core.List.{List, [], ◌∷◌}
use native.Mathlib.Omega.{arith}
use text.Mathlib.TextEquality.{eq_iff}
use package.carina.Base.Tests.{◌==◌, if◌then◌else◌}

abbrev pub Map {ℓ} : Type ℓ → Type ℓ
Map V = List (String × V)

module _ {ℓ} {V : Type ℓ} where
  -- v, ok := m[k]
  unfoldable pub lookup : String → Map V → Option V
  lookup k [] = none
  lookup k ((j, v) ∷ m) = if j == k then some v else lookup k m

  -- m[k], with the zero value for a key that is not there
  unfoldable pub get_or : V → String → Map V → V
  unfolding lookup
  get_or zero_value k m = elim (lookup k m) [ none ↦ zero_value | some v ↦ v ]

  -- m[k] = v
  unfoldable pub insert : String → V → Map V → Map V
  insert k v [] = (k, v) ∷ []
  insert k v ((j, w) ∷ m) = if j == k then (j, v) ∷ m else (j, w) ∷ insert k v m

  -- delete(m, k)
  unfoldable pub erase : String → Map V → Map V
  erase k [] = []
  erase k ((j, v) ∷ m) = let rest = erase k m in if j == k then rest else (j, v) ∷ rest

  pub lookup-insert :
      (key other : String) (value : V) (entries : Map V)
      → lookup other (insert key value entries)
        ≡ (if key == other then some value else lookup other entries)
  unfolding lookup insert
  lookup-insert key other value [] = refl
  lookup-insert key other value ((first, old) ∷ entries) = ground (
    arith,
    lookup-insert key other value entries,
    eq_iff key other,
    eq_iff first key,
    eq_iff first other,
  )

  pub lookup-erase :
      (k j : String) (m : Map V) → lookup j (erase k m) ≡ (if k == j then none else lookup j m)
  unfolding lookup erase
  lookup-erase k j [] = ground arith
  lookup-erase k j ((i, v) ∷ m) =
      ground (arith, lookup-erase k j m, eq_iff i k, eq_iff i j, eq_iff k j)

  pub get_or-none : (z : V) (k : String) (m : Map V) → lookup k m ≡ none → get_or z k m ≡ z
  unfolding get_or
  get_or-none z k m h = rw (h, get_or)

  pub get_or-some : (z v : V) (k : String) (m : Map V) → lookup k m ≡ some v → get_or z k m ≡ v
  unfolding get_or
  get_or-some z v k m h = rw (h, get_or)

-- m[k] for a map of texts
unfoldable pub text_at : String → Map String → String
unfolding get_or
text_at = get_or ""
