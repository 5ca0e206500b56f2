-- ===== src/Reconciler/Retry.antt =====
-- UntilMaxRetry of utils/utils.go.
pub mod Runs
use carina.Base.{ℕ, zero, suc}
use carina.Errors.{Error, plain, status, panic, Result, ok, err}
use carina.Volume.{Op, give}

module _ {D : Type 0} (failure : Error → Op D (Unit {0})) (success : Op D (Unit {0})) where
  abbrev pub handled : Result (Unit {0}) × D → Result (Unit {0}) × D
  handled (ok u, w) = success w
  handled (err (plain s), w) = failure (plain s) w
  handled (err (status c s), w) = failure (status c s) w
  handled (err panic, w) = (err panic, w)

  -- `err := f(); if err != nil { failure } else { success }`; a panic goes on.
  unfoldable pub caught : Op D (Unit {0}) → Op D (Unit {0})
  caught f = λ w. handled (f w)

module _ {D : Type 0} (f : Op D (Unit {0})) where
  -- The loop with some tries left, and the error of the last one
  unfoldable pub tries : ℕ → Result (Unit {0}) → Op D (Unit {0})
  unfolding caught
  tries zero last = give last
  tries (suc n) last = caught (λ e. tries n (err e)) (give (ok tt)) f

  unfoldable pub until_max_retry : ℕ → Op D (Unit {0})
  unfolding tries
  until_max_retry max_retry = tries max_retry (ok tt)
