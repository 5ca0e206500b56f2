-- ===== src/Reconciler/Retry/Runs.antt =====
-- Which run of the retried function gives the result.
use carina.Base.{ℕ, zero, suc, ◌≤◌, ◌≡◌, ◌≢◌, refl, sym, ap, subst, ◌⊎◌, inl, inr, arith}
use carina.Errors.{Error, plain, status, panic, Result, ok, err}
use carina.Volume.{Op, give}
use carina.Reconciler.Retry.{handled, tries, until_max_retry}

module _ {D : Type 0} (f : Op D (Unit {0})) where
  -- The world after some runs
  abbrev pub runs : ℕ → D → D
  runs zero w = w
  runs (suc k) w = runs k (f w).1

  abbrev pub AllFailed : ℕ → D → Type 0
  AllFailed zero w = Unit
  AllFailed (suc k) w = ((f w).0 ≢ ok tt) × AllFailed k (f w).1

  -- The outcome is that of the last run; the runs before it failed. There is a last run because it
  -- succeeded, because it was a panic, or because it was the last one allowed.
  pub record LastRun (n : ℕ) (w : D) (out : Result (Unit {0}) × D) : Type 0 where
    pub earlier : ℕ
    pub within : earlier ≤ n
    pub ran : f (runs earlier w) ≡ out
    pub failed : AllFailed earlier w
    pub ended : (out.0 ≡ ok tt) ⊎ ((out.0 ≡ err panic) ⊎ (earlier ≡ n))

  at_once :
      (n : ℕ) (w : D) (out : Result (Unit {0}) × D)
      → f w ≡ out
      → (out.0 ≡ ok tt) ⊎ ((out.0 ≡ err panic) ⊎ (0 ≡ n))
      → LastRun n w out
  at_once n w out ran ended = record {
    earlier = 0;
    within = omega arith;
    ran = ran;
    failed = tt;
    ended = ended;
  }

  one_more :
      (n : ℕ) (w w1 : D) (e : Error) (out : Result (Unit {0}) × D)
      → f w ≡ (err e, w1)
      → LastRun n w1 out
      → LastRun (suc n) w out
  one_more n w w1 e out ran l = record {
    earlier = suc l.earlier;
    within = omega (arith, l.within);
    ran = rw ran l.ran;
    failed = (
      λ h. failure h,
      subst (AllFailed l.earlier) (sym (ap (λ (p : Result (Unit {0}) × D). p.1) ran)) l.failed,
    );
    ended = elim l.ended [
      | inl done ↦ inl done
      | inr (inl stopped) ↦ inr (inl stopped)
      | inr (inr all) ↦ inr (inr (ap suc all))
    ];
  }
    where
      failure : (f w).0 ≡ ok tt → ⊥
      failure h = ground (arith, h, ap (λ (p : Result (Unit {0}) × D). p.0) ran)

  again :
      (n : ℕ) (w w1 : D) (e : Error)
      → f w ≡ (err e, w1)
      → ((m : ℕ) → suc m ≡ n → LastRun m w1 (tries f n (err e) w1))
      → LastRun n w (tries f n (err e) w1)
  unfolding tries
  again zero w w1 e ran later = at_once zero w (err e, w1) ran (inr (inr refl))
  again (suc m) w w1 e ran later = one_more m w w1 e _ ran (later m refl)

  from :
      (n : ℕ) (w : D) (out : Result (Unit {0}) × D)
      → f w ≡ out
      → ((m : ℕ) (e : Error) (w1 : D) → suc m ≡ n → LastRun m w1 (tries f n (err e) w1))
      → LastRun n w (handled (λ e. tries f n (err e)) (give (ok tt)) out)
  from n w (ok u, w1) ran later = at_once n w (ok tt, w1) ran (inl refl)
  from n w (err (plain s), w1) ran later =
      again n w w1 (plain s) ran (λ m e. later m (plain s) w1 e)
  from n w (err (status c s), w1) ran later =
      again n w w1 (status c s) ran (λ m e. later m (status c s) w1 e)
  from n w (err panic, w1) ran later = at_once n w (err panic, w1) ran (inr (inl refl))

  tries_lem : (n : ℕ) (last : Result (Unit {0})) (w : D) → LastRun n w (tries f (suc n) last w)
  unfolding tries
  tries_lem zero last w = from zero w (f w) refl (λ m e w1 same. absurd (ground (arith, same)))
  tries_lem (suc n) last w = from (suc n) w (f w) refl (λ m e w1 same.
      subst (λ k. LastRun k w1 (tries f (suc n) (err e) w1)) (omega (arith, same))
        (tries_lem n (err e) w1))

  -- Trying up to n + 1 times gives the outcome of the last run, all earlier runs having failed; it is
  -- a success, a panic, or the failure of the last run allowed.
  pub until_max_retry-LastRun : (n : ℕ) (w : D) → LastRun n w (until_max_retry f (suc n) w)
  unfolding until_max_retry
  until_max_retry-LastRun n w = tries_lem n (ok tt) w
