-- ===== src/Base/Sort.antt =====
-- sort.Slice by an int64 key. Go leaves the order of equal keys open; the statements about sorted
-- lists speak of keys only.
use mathlib.Core.Path.{refl, subst, ◌∙◌}
use mathlib.Core.Logic.{inl, inr}
use mathlib.Core.List.Permᴰ
use mathlib.Core.List.{List, [], ◌∷◌, Permᴰ}
use native.Mathlib.Omega.{arith}
use package.carina.Base.Tests.{Bool-cases, if◌then◌else◌}
use package.carina.Base.Lists.{In, All}
use package.carina.Base.Int.{ℤ, ◌≤ℤ◌, leb_ℤ, leb_ℤ→le, not_leb_ℤ→le}

pub All-perm {ℓ κ} :
    {A : Type ℓ} (P : A → Type κ) {xs ys : List A} → Permᴰ xs ys → All P xs → All P ys
All-perm P Permᴰ.nil all = all
All-perm P (Permᴰ.cons e p) all = (subst P e all.0, All-perm P p all.1)
All-perm P (Permᴰ.swap e f) all = (subst P f all.1.0, (subst P e all.0, all.1.1))
All-perm P (Permᴰ.trans p q) all = All-perm P q (All-perm P p all)

module _ {ℓ} {A : Type ℓ} (key : A → ℤ) where
  insert_by : A → List A → List A
  insert_by x [] = x ∷ []
  insert_by x (y ∷ ys) = if leb_ℤ (key x) (key y) then x ∷ y ∷ ys else y ∷ insert_by x ys

  unfoldable pub sort_by : List A → List A
  unfolding insert_by
  sort_by [] = []
  sort_by (x ∷ xs) = insert_by x (sort_by xs)

  insert_by-perm : (x : A) (xs : List A) → Permᴰ (x ∷ xs) (insert_by x xs)
  unfolding insert_by
  insert_by-perm x [] = Permᴰ.refl (x ∷ [])
  insert_by-perm x (y ∷ ys) = elim (Bool-cases (leb_ℤ (key x) (key y))) [
    | inl le ↦ rw le (Permᴰ.refl (x ∷ y ∷ ys))
    | inr gt ↦ rw gt (Permᴰ.trans (Permᴰ.swap refl refl) (Permᴰ.cons refl (insert_by-perm x ys)))
  ]

  pub sort_by-perm : (xs : List A) → Permᴰ xs (sort_by xs)
  unfolding sort_by
  sort_by-perm [] = Permᴰ.nil
  sort_by-perm (x ∷ xs) =
      Permᴰ.trans (Permᴰ.cons refl (sort_by-perm xs)) (insert_by-perm x (sort_by xs))

  -- Ascending by the key.
  abbrev pub IsAscending : List A → Type 0
  IsAscending [] = Unit
  IsAscending (x ∷ xs) = All (λ y. key x ≤ℤ key y) xs × IsAscending xs

  All-insert_by :
      (k : ℤ) (x : A) (xs : List A)
      → k ≤ℤ key x
      → All (λ y. k ≤ℤ key y) xs
      → All (λ y. k ≤ℤ key y) (insert_by x xs)
  unfolding insert_by
  All-insert_by k x [] h all = (h, tt)
  All-insert_by k x (y ∷ ys) h all = elim (Bool-cases (leb_ℤ (key x) (key y))) [
    | inl le ↦ rw le (h, all)
    | inr gt ↦ rw gt (all.0, All-insert_by k x ys h all.1)
  ]

  All-weaken :
      (j k : ℤ) (xs : List A) → j ≤ℤ k → All (λ y. k ≤ℤ key y) xs → All (λ y. j ≤ℤ key y) xs
  All-weaken j k [] h all = tt
  All-weaken j k (x ∷ xs) h all = (omega (arith, all.0), All-weaken j k xs h all.1)

  insert_by-IsAscending : (x : A) (xs : List A) → IsAscending xs → IsAscending (insert_by x xs)
  unfolding insert_by
  insert_by-IsAscending x [] h = (tt, tt)
  insert_by-IsAscending x (y ∷ ys) h = elim (Bool-cases (leb_ℤ (key x) (key y))) [
    | inl le ↦
        let below : key x ≤ℤ key y = leb_ℤ→le (key x) (key y) le in
        rw le ((below, All-weaken (key x) (key y) ys below h.0), h)
    | inr gt ↦
        let above : key y ≤ℤ key x = not_leb_ℤ→le (key x) (key y) gt in
        rw gt (All-insert_by (key y) x ys above h.0, insert_by-IsAscending x ys h.1)
  ]

  pub sort_by-IsAscending : (xs : List A) → IsAscending (sort_by xs)
  unfolding sort_by
  sort_by-IsAscending [] = tt
  sort_by-IsAscending (x ∷ xs) = insert_by-IsAscending x (sort_by xs) (sort_by-IsAscending xs)

module _ {A : Type 0} where
  pub In-perm : (a : A) {xs ys : List A} → Permᴰ xs ys → In a xs → In a ys
  In-perm a Permᴰ.nil m = m
  In-perm a (Permᴰ.cons e p) (inl h) = inl (h ∙ e)
  In-perm a (Permᴰ.cons e p) (inr m) = inr (In-perm a p m)
  In-perm a (Permᴰ.swap e f) (inl h) = inr (inl (h ∙ e))
  In-perm a (Permᴰ.swap e f) (inr (inl h)) = inl (h ∙ f)
  In-perm a (Permᴰ.swap e f) (inr (inr m)) = inr (inr m)
  In-perm a (Permᴰ.trans p q) m = In-perm a q (In-perm a p m)
