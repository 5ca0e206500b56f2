-- ===== src/Locks/Exclusion.antt =====
-- Threads that take and give back named locks, in any interleaving.
use carina.Base.{
  ℕ, String, ◌≡◌, ap, true, false, List, [], ◌∷◌, In, inl, inr, arith, eq_iff, ◌==◌, if◌then◌else◌,
  Bool-cases,
}
use carina.Locks.{StringSet, GlobalLocks, new_global_locks, try_acquire, release, held}

-- Thread and lock name, for every lock that some thread holds.
abbrev pub Holders : Type 0
Holders = List (ℕ × String)

pub drop_holder : String → Holders → Holders
drop_holder id [] = []
drop_holder id ((t, j) ∷ hs) =
    let rest = drop_holder id hs in if id == j then rest else (t, j) ∷ rest

module _ {S : Type 0} (sets : StringSet S) where
  open sets use {has-empty, has-insert, has-delete}

  -- A thread that gets `false` goes away; only a holder releases.
  pub data Reach : GlobalLocks S → Holders → Type 0 where
    start : Reach (new_global_locks sets) []
    enter :
        {gl : GlobalLocks S} {hs : Holders} (t : ℕ) (id : String)
        → Reach gl hs
        → (try_acquire sets id gl).1 ≡ true
        → Reach (try_acquire sets id gl).0 ((t, id) ∷ hs)
    refused :
        {gl : GlobalLocks S} {hs : Holders} (id : String)
        → Reach gl hs
        → (try_acquire sets id gl).1 ≡ false
        → Reach (try_acquire sets id gl).0 hs
    leave :
        {gl : GlobalLocks S} {hs : Holders} (t : ℕ) (id : String)
        → Reach gl hs
        → In (t, id) hs
        → Reach (release sets id gl) (drop_holder id hs)

In-drop_holder :
    (id : String) (t : ℕ) (j : String) (hs : Holders)
    → In (t, j) (drop_holder id hs)
    → In (t, j) hs × ((id == j) ≡ false)
unfolding drop_holder
In-drop_holder id t j [] m = absurd m
In-drop_holder id t j ((u, k) ∷ hs) m = elim (Bool-cases (id == k)) [
  | inl same ↦ later (In-drop_holder id t j hs (rw same at m))
  | inr differ ↦ kept (In-drop_holder id t j hs) differ (rw differ at m)
]
  where
    later : In (t, j) hs × ((id == j) ≡ false) → In (t, j) ((u, k) ∷ hs) × ((id == j) ≡ false)
    later (old, other) = (inr old, other)

    kept :
        (In (t, j) (drop_holder id hs) → In (t, j) hs × ((id == j) ≡ false))
        → (id == k) ≡ false
        → In (t, j) ((u, k) ∷ drop_holder id hs)
        → In (t, j) ((u, k) ∷ hs) × ((id == j) ≡ false)
    kept ih differ (inl e) = (inl e, rw (ap (λ (p : ℕ × String). p.1) e) differ)
    kept ih differ (inr m') = later (ih m')

module _ {S : Type 0} (sets : StringSet S) where
  open sets use {has-empty, has-insert, has-delete}

  -- Who holds a lock, as the set of names records it.
  record Inv (gl : GlobalLocks S) (hs : Holders) : Type 0 where
    recorded : (t : ℕ) (id : String) → In (t, id) hs → held sets gl id ≡ true
    single : (t u : ℕ) (id : String) → In (t, id) hs → In (u, id) hs → t ≡ u

  enter-Inv :
      (gl : GlobalLocks S) (hs : Holders) (t : ℕ) (id : String)
      → Inv gl hs
      → (try_acquire sets id gl).1 ≡ true
      → Inv (try_acquire sets id gl).0 ((t, id) ∷ hs)
  unfolding try_acquire
  enter-Inv gl hs t id v got = elim (Bool-cases (sets.has gl.locks id)) [
    | inl busy ↦ cc
    | inr idle ↦ rw idle (record { recorded = now; single = alone idle })
  ]
    where
      now :
          (u : ℕ) (j : String)
          → In (u, j) ((t, id) ∷ hs)
          → sets.has (sets.insert gl.locks id) j ≡ true
      now u j (inl e) = rw has-insert (ground (arith, eq_iff id j))
      now u j (inr m) = rw has-insert (ground (arith, v.recorded u j m))

      unheld : sets.has gl.locks id ≡ false → (u : ℕ) (j : String) → j ≡ id → In (u, j) hs → ⊥
      unheld idle u j e m = cc (v.recorded u j m, ap (sets.has gl.locks) e)

      alone :
          sets.has gl.locks id ≡ false
          → (u w : ℕ) (j : String) → In (u, j) ((t, id) ∷ hs)
          → In (w, j) ((t, id) ∷ hs)
          → u ≡ w
      alone idle u w j (inl e) (inl f) = cc
      alone idle u w j (inl e) (inr n) = absurd (unheld idle w j (cc) n)
      alone idle u w j (inr m) (inl f) = absurd (unheld idle u j (cc) m)
      alone idle u w j (inr m) (inr n) = v.single u w j m n

  leave-Inv :
      (gl : GlobalLocks S) (hs : Holders) (t : ℕ) (id : String)
      → Inv gl hs
      → Inv (release sets id gl) (drop_holder id hs)
  unfolding release
  leave-Inv gl hs t id v = record {
    recorded = λ u j m.
        let (old, other) = In-drop_holder id u j hs m in
        rw (has-delete gl.locks id j, other) (v.recorded u j old);
    single =
        λ u w j m n. v.single u w j (In-drop_holder id u j hs m).0 (In-drop_holder id w j hs n).0;
  }

  Reach-Inv : {gl : GlobalLocks S} {hs : Holders} → Reach sets gl hs → Inv gl hs
  unfolding new_global_locks try_acquire
  Reach-Inv start = record { recorded = λ t id m. absurd m; single = λ t u id m n. absurd m }
  Reach-Inv (enter {gl} {hs} t id r got) = enter-Inv gl hs t id (Reach-Inv r) got
  Reach-Inv (refused {gl} {hs} id r busy) = kept (Reach-Inv r)
    where
      kept : Inv gl hs → Inv (try_acquire sets id gl).0 hs
      kept v = elim (Bool-cases (sets.has gl.locks id)) [ inl taken ↦ rw taken v | inr idle ↦ cc ]
  Reach-Inv (leave {gl} {hs} t id r m) = leave-Inv gl hs t id (Reach-Inv r)

  -- In every interleaving of threads that take and give back locks by name, two threads that hold
  -- the same lock are the same thread, and a lock that a thread holds is in the table.
  pub exclusion :
      (gl : GlobalLocks S) (hs : Holders) (t u : ℕ) (id : String)
      → Reach sets gl hs
      → In (t, id) hs
      → In (u, id) hs
      → (t ≡ u) × (held sets gl id ≡ true)
  exclusion gl hs t u id r m n = ((Reach-Inv r).single t u id m n, (Reach-Inv r).recorded t id m)
