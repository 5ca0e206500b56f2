-- ===== src/Placement/Candidates/Best.antt =====
-- Which of the candidates is chosen.
use mathlib.Core.List.Permᴰ
use carina.Base.{
  String, ℤ, ◌≡◌, ◌≢◌, refl, subst, ◌⊎◌, inl, inr, List, [], ◌∷◌, In, All, ◌≤ℤ◌, sort_by,
  sort_by-perm, sort_by-IsAscending, IsAscending, Permᴰ, In-perm, All-perm, Bool-cases, arith,
  eq_iff, ◌==◌,
}
use carina.Errors.{ok}
use carina.Config.{binpack, spreadout}
use carina.Placement.Candidates.{GroupPair, last, by_strategy, choose}

abbrev size_of : GroupPair → ℤ
size_of p = p.allocatable

In-last : (p : GroupPair) (ps : List GroupPair) → In (last p ps) (p ∷ ps)
In-last p [] = inl refl
In-last p (q ∷ qs) = inr (In-last q qs)

last_largest :
    (p : GroupPair) (ps : List GroupPair)
    → IsAscending size_of (p ∷ ps)
    → All (λ q. q.allocatable ≤ℤ (last p ps).allocatable) (p ∷ ps)
last_largest p [] h = (omega arith, tt)
last_largest p (q ∷ qs) h = let rest = last_largest q qs h.1 in (omega (arith, h.0.0, rest.0), rest)

-- What a choice among candidates has to be.
pub record Best (strategy : String) (pairs : List GroupPair) (p : GroupPair) : Type 0 where
  pub listed : In p pairs
  pub smallest : strategy ≡ binpack → All (λ q. p.allocatable ≤ℤ q.allocatable) pairs
  pub largest : strategy ≡ spreadout → All (λ q. q.allocatable ≤ℤ p.allocatable) pairs

Best-perm :
    (strategy : String) (p : GroupPair) {ps qs : List GroupPair}
    → Permᴰ ps qs
    → Best strategy ps p
    → Best strategy qs p
Best-perm strategy p perm b = record {
  listed = In-perm p perm b.listed;
  smallest = λ e. All-perm (λ q. p.allocatable ≤ℤ q.allocatable) perm (b.smallest e);
  largest = λ e. All-perm (λ q. q.allocatable ≤ℤ p.allocatable) perm (b.largest e);
}

two_strategies : (strategy : String) → strategy ≡ binpack → strategy ≡ spreadout → ⊥
two_strategies strategy b s = ground (arith, b, s, eq_iff binpack spreadout)

by_strategy-Best :
    (strategy : String) (ps : List GroupPair) (p : GroupPair)
    → IsAscending size_of ps
    → by_strategy strategy ps ≡ ok p
    → Best strategy ps p
unfolding by_strategy
by_strategy-Best strategy [] p h e = cc
by_strategy-Best strategy (q ∷ qs) p h e = elim (Bool-cases (strategy == binpack)) [
  | inl b ↦
      let first : q ≡ p = ground (arith, b, e) in
      subst (Best strategy (q ∷ qs)) first (record {
        listed = inl refl;
        smallest = λ _. (omega arith, h.0);
        largest = λ s. absurd (two_strategies strategy ((eq_iff strategy binpack).0 b) s);
      })
  | inr nb ↦ elim (Bool-cases (strategy == spreadout)) [
    | inl s ↦
        let end : last q qs ≡ p = ground (arith, nb, s, e) in
        subst (Best strategy (q ∷ qs)) end (record {
          listed = In-last q qs;
          smallest = λ b. absurd (two_strategies strategy b ((eq_iff strategy spreadout).0 s));
          largest = λ _. last_largest q qs h;
        })
    | inr ns ↦ absurd (ground (arith, nb, ns, e))
  ]
]

-- The choice is one of the candidates; it has the least space under binpack and the most under
-- spreadout.
pub choose-Best :
    (strategy : String) (ps : List GroupPair) (p : GroupPair)
    → choose strategy ps ≡ ok p
    → Best strategy ps p
unfolding choose
choose-Best strategy [] p e = cc
choose-Best strategy (q ∷ []) p e =
    let only : q ≡ p = cc in
    subst (Best strategy (q ∷ [])) only (record {
      listed = inl refl;
      smallest = λ _. (omega arith, tt);
      largest = λ _. (omega arith, tt);
    })
choose-Best strategy (q ∷ r ∷ ps) p e =
    Best-perm strategy p (Permᴰ.symm (sort_by-perm size_of (q ∷ r ∷ ps))) (
      by_strategy-Best strategy (sort_by size_of (q ∷ r ∷ ps)) p
        (sort_by-IsAscending size_of (q ∷ r ∷ ps)) e)

by_strategy-ok :
    (strategy : String) (ps : List GroupPair)
    → (strategy ≡ binpack) ⊎ (strategy ≡ spreadout)
    → ps ≢ []
    → (p : GroupPair) × (by_strategy strategy ps ≡ ok p)
unfolding by_strategy
by_strategy-ok strategy [] known some_pair = absurd (some_pair refl)
by_strategy-ok strategy (q ∷ qs) (inl b) some_pair = (q, rw ((eq_iff strategy binpack).1 b))
by_strategy-ok strategy (q ∷ qs) (inr s) some_pair = elim (Bool-cases (strategy == binpack)) [
  | inl b ↦ (q, rw b)
  | inr nb ↦ (last q qs, rw nb (rw ((eq_iff strategy spreadout).1 s)))
]

-- With one of the two strategies a choice is made whenever there is a candidate.
pub choose-ok :
    (strategy : String) (ps : List GroupPair)
    → (strategy ≡ binpack) ⊎ (strategy ≡ spreadout)
    → ps ≢ []
    → (p : GroupPair) × (choose strategy ps ≡ ok p)
unfolding choose
choose-ok strategy [] known some_pair = absurd (some_pair refl)
choose-ok strategy (q ∷ []) known some_pair = (q, refl)
choose-ok strategy (q ∷ r ∷ ps) known some_pair =
    by_strategy-ok strategy (sort_by size_of (q ∷ r ∷ ps)) known (λ none_left.
      nonempty (subst (In q) none_left (In-perm q (sort_by-perm size_of (q ∷ r ∷ ps)) (inl refl))))
  where
    nonempty : In q [] → ⊥
    nonempty m = m
