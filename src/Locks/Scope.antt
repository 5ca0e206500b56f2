-- ===== src/Locks/Scope.antt =====
-- `if !mutex.TryAcquire(id) { return busy }; defer mutex.Release(id); body`, the way in which the
-- program uses the locks.
use carina.Base.{String, ◌≡◌, true, false, arith, eq_iff, Bool, Bool-cases, inl, inr}
use carina.Errors.{Result}
use carina.Locks.{StringSet, GlobalLocks, try_acquire, release, held}

module _ {S : Type 0} (sets : StringSet S) (lock : String) where
  open sets use {insert, has-insert, has-delete}

  -- A lock that is taken and given back leaves the table as it was.
  pub released :
      (gl : GlobalLocks S) (id : String)
      → held sets gl lock ≡ false
      → held sets (release sets lock (try_acquire sets lock gl).0) id ≡ held sets gl id
  unfolding try_acquire release
  released gl id free = ground (
    arith,
    free,
    has-delete (insert gl.locks lock) lock id,
    has-insert gl.locks lock id,
    eq_iff lock id,
  )

module _ {S W A : Type 0} (sets : StringSet S) (lock : String) where
  abbrev finish : GlobalLocks S → Result A × W → Result A × (GlobalLocks S × W)
  finish gl (r, w) = (r, (release sets lock gl, w))

  abbrev enter :
      GlobalLocks S × Bool → Result A → (W → Result A × W) → W → Result A × (GlobalLocks S × W)
  enter (gl, false) busy body w = (busy, (gl, w))
  enter (gl, true) busy body w = finish gl (body w)

  -- The deferred release runs on every way out, a panic included.
  unfoldable pub guarded :
      Result A → (W → Result A × W) → GlobalLocks S × W → Result A × (GlobalLocks S × W)
  guarded busy body (gl, w) = enter (try_acquire sets lock gl) busy body w

  guarded_free :
      (busy : Result A) (body : W → Result A × W) (gl : GlobalLocks S) (w : W)
      → held sets gl lock ≡ false
      → guarded busy body (gl, w)
        ≡ ((body w).0, (release sets lock (try_acquire sets lock gl).0, (body w).1))
  unfolding guarded try_acquire
  guarded_free busy body gl w free = rw free

  pub guarded_busy :
      (busy : Result A) (body : W → Result A × W) (gl : GlobalLocks S) (w : W)
      → held sets gl lock ≡ true
      → guarded busy body (gl, w) ≡ (busy, (gl, w))
  unfolding guarded try_acquire
  guarded_busy busy body gl w taken = rw taken

  pub guarded_neutral :
      (busy : Result A) (body : W → Result A × W) (gl : GlobalLocks S) (w : W) (id : String)
      → held sets (guarded busy body (gl, w)).1.0 id ≡ held sets gl id
  guarded_neutral busy body gl w id = elim (Bool-cases (held sets gl lock)) [
    | inl taken ↦ rw (guarded_busy busy body gl w taken)
    | inr free ↦ rw (guarded_free busy body gl w free) (released sets lock gl id free)
  ]

  -- What is returned is the refusal or what the body returns.
  pub guarded_result :
      (P : Result A → Type 0) (busy : Result A) (body : W → Result A × W) (gl : GlobalLocks S)
      (w : W)
      → P busy
      → P (body w).0
      → P (guarded busy body (gl, w)).0
  guarded_result P busy body gl w refused run = elim (Bool-cases (held sets gl lock)) [
    | inl taken ↦ rw (guarded_busy busy body gl w taken) refused
    | inr free ↦ rw (guarded_free busy body gl w free) run
  ]
