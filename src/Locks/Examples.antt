-- ===== src/Locks/Examples.antt =====
-- Two threads and two locks, over sets as functions.
use carina.Base.{String, ℕ, ◌≡◌, refl, Bool, true, false, [], ◌∷◌, inl, ◌==◌, if◌then◌else◌}
use carina.Locks.{StringSet, GlobalLocks, new_global_locks, try_acquire, held}
use carina.Locks.Exclusion.{Reach, start, enter, exclusion}

abbrev pub function_set : StringSet (String → Bool)
function_set = record {
  empty = λ j. false;
  has = λ s j. s j;
  insert = λ s k j. if k == j then true else s j;
  delete = λ s k j. if k == j then false else s j;
  has-empty = λ k. refl;
  has-insert = λ s k j. refl;
  has-delete = λ s k j. refl;
}

abbrev contended : GlobalLocks (String → Bool)
contended = (try_acquire function_set "VolumeMutex" (new_global_locks function_set)).0

contended-Reach : Reach function_set contended ((1, "VolumeMutex") ∷ [])
unfolding try_acquire new_global_locks
contended-Reach = enter 1 "VolumeMutex" start refl

exclusion_example : ◌≡◌ {A = ℕ} 1 1 × (held function_set contended "VolumeMutex" ≡ true)
exclusion_example =
    exclusion function_set contended ((1, "VolumeMutex") ∷ []) 1 1 "VolumeMutex" contended-Reach
      (inl refl) (inl refl)

second_refused : (try_acquire function_set "VolumeMutex" contended).1 ≡ false
unfolding try_acquire new_global_locks
second_refused = refl
