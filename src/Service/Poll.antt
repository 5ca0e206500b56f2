-- ===== src/Service/Poll.antt =====
-- The loop `for { select { case <-ctx.Done(): return ctx.Err(); case <-time.After(...): }; body }`
-- that four operations of logicvolume_service.go have.
pub mod Runs
use carina.Base.{ℕ, zero, suc}
use carina.Errors.{Result, ok, err}
use carina.Service.{Client, Timed, context_done}

-- What the body of the loop ends with: `continue`, or a `return`
pub data Verdict (A : Type 0) : Type 0 where
  again : Verdict A
  stop : Result A → Verdict A

module _ {W A : Type 0} where
  abbrev pub decided : Verdict A × W → ℕ → (W → Result A × Timed W) → Result A × Timed W
  decided (again, w) left loop = loop w
  decided (stop r, w) left loop = (r, (left, w))

  unfoldable pub poll : (W → W) → (W → Verdict A × W) → ℕ → W → Result A × Timed W
  poll pass body zero w = (err context_done, (0, w))
  poll pass body (suc left) w = decided (body (pass w)) left (λ v. poll pass body left v)

-- The body of a loop that only looks at the world
abbrev pub watch : {W A : Type 0} → (W → Verdict A) → W → Verdict A × W
watch look w = (look w, w)
