-- ===== src/Service/Poll/Runs.antt =====
-- What the polling loop of logicvolume_service.go returns.
use carina.Base.{ℕ, zero, suc, ◌-◌, ◌<◌, ◌≡◌, refl, ap, ◌∙◌, sym, ◌⊎◌, inl, inr, arith}
use carina.Errors.{Result, ok, err}
use carina.Service.{Timed, context_done}
use carina.Service.Poll.{Verdict, again, stop, decided, poll, watch}

module _ {W A : Type 0} (pass : W → W) (body : W → Verdict A × W) where
  -- The worlds that the body looks at, when the loop starts in the first one
  pub data Reaches : W → W → Type 0 where
    first : (w : W) → Reaches w (pass w)
    later : {w v : W} (u : W) → body (pass w) ≡ (again, u) → Reaches u v → Reaches w v

  -- The loop ended in a body that returned.
  pub record Stopped (w : W) (r : Result A) (end : W) : Type 0 where
    pub seen : W
    pub reached : Reaches w seen
    pub verdict : body seen ≡ (stop r, end)

  step :
      (w u : W) (r : Result A) (end : W)
      → body (pass w) ≡ (again, u)
      → Stopped u r end
      → Stopped w r end
  step w u r end h s = record { seen = s.seen; reached = later u h s.reached; verdict = s.verdict }

  judged :
      (b : Verdict A × W) (left : ℕ) (w : W) {r : Result A} {t : Timed W}
      → body (pass w) ≡ b
      → ((u : W) → poll pass body left u ≡ (r, t) → (r ≡ err context_done) ⊎ Stopped u r t.1)
      → decided b left (λ v. poll pass body left v) ≡ (r, t)
      → (r ≡ err context_done) ⊎ Stopped w r t.1
  judged (again, u) left w {r} {t} e rest g = elim (rest u g) [
    | inl out ↦ inl out
    | inr s ↦ inr (step w u r t.1 e s)
  ]
  judged (stop q, u) left w e rest g =
      inr (record { seen = pass w; reached = first w; verdict = e ∙ ap (λ p. (stop p.0, p.1.1)) g })

  pub poll-Stopped :
      (left : ℕ) (w : W) {r : Result A} {t : Timed W}
      → poll pass body left w ≡ (r, t)
      → (r ≡ err context_done) ⊎ Stopped w r t.1
  unfolding poll
  poll-Stopped zero w h = inl (sym (ap (λ p. p.0) h))
  poll-Stopped (suc left) w h = judged (body (pass w)) left w refl (λ u g. poll-Stopped left u g) h

  pub poll-ok :
      (left : ℕ) (w : W) {a : A} {t : Timed W}
      → poll pass body left w ≡ (ok a, t)
      → Stopped w (ok a) t.1
  poll-ok left w h = elim (poll-Stopped left w h) [ inl e ↦ cc e | inr s ↦ s ]

-- The world after some waits
abbrev pub after : {W : Type 0} → (W → W) → ℕ → W → W
after pass zero w = w
after pass (suc k) w = after pass k (pass w)

module _ {W A : Type 0} (pass : W → W) (look : W → Verdict A) where
  -- The first observation that decides is the result, if it comes before the context is done.
  pub poll-first :
      (k left : ℕ) (w : W) {r : Result A}
      → k < left
      → ((j : ℕ) → j < k → look (after pass (suc j) w) ≡ again)
      → look (after pass (suc k) w) ≡ stop r
      → poll pass (watch look) left w ≡ (r, (left - suc k, after pass (suc k) w))
  unfolding poll
  poll-first k zero w lt waits decides = absurd (omega (arith, lt))
  poll-first zero (suc left) w {r} lt waits decides =
      rw decides (ap (λ n. (r, (n, pass w))) (omega arith))
  poll-first (suc k) (suc left) w {r} lt waits decides = rw (waits 0 (omega arith)) (
      poll-first k left (pass w) (omega (arith, lt))
        (λ j below. waits (suc j) (omega (arith, below))) decides
      ∙ ap (λ n. (r, (n, after pass (suc (suc k)) w))) (omega (arith, lt)))

  pub poll-none :
      (left : ℕ) (w : W)
      → ((j : ℕ) → j < left → look (after pass (suc j) w) ≡ again)
      → poll pass (watch look) left w ≡ (err context_done, (0, after pass left w))
  unfolding poll
  poll-none zero w waits = refl
  poll-none (suc left) w waits =
      rw (waits 0 (omega arith))
        (poll-none left (pass w) (λ j lt. waits (suc j) (omega (arith, lt))))
