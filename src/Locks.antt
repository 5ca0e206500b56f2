-- ===== src/Locks.antt =====
-- utils/mutx/idlocker.go: a table of locks by name. `TryAcquire` never waits.
-- Both methods run under one Go mutex, so each is one step.
pub mod Exclusion
pub mod Scope
pub mod Examples
use carina.Base.{String, ◌≡◌, Bool, true, false, ◌==◌, if◌then◌else◌}

-- sets.String of k8s.io/apimachinery, as documented.
pub record StringSet (S : Type 0) : Type 0 where
  pub empty : S
  pub has : S → String → Bool
  pub insert : S → String → S
  pub delete : S → String → S
  pub has-empty : (k : String) → has empty k ≡ false
  pub has-insert : (s : S) (k j : String) → has (insert s k) j ≡ (if k == j then true else has s j)
  pub has-delete : (s : S) (k j : String) → has (delete s k) j ≡ (if k == j then false else has s j)

pub record GlobalLocks (S : Type 0) : Type 0 where
  pub locks : S

module _ {S : Type 0} (sets : StringSet S) where
  open sets use {empty, has, insert, delete}

  unfoldable pub new_global_locks : GlobalLocks S
  new_global_locks = record { locks = empty }

  unfoldable pub try_acquire : String → GlobalLocks S → GlobalLocks S × Bool
  try_acquire id gl =
      if has gl.locks id then (gl, false) else (record { locks = insert gl.locks id }, true)

  unfoldable pub release : String → GlobalLocks S → GlobalLocks S
  release id gl = record { locks = delete gl.locks id }

  -- Is the name locked?
  abbrev pub held : GlobalLocks S → String → Bool
  held gl id = has gl.locks id
