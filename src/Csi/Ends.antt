-- ===== src/Csi/Ends.antt =====
-- What the calls of the controller can end with: one predicate of the errors and one of the values,
-- carried through the steps of a call.
use carina.Base.{Bool, true, false, if◌then◌else◌}
use carina.Errors.{Error, plain, status, panic, as_status, Result, ok, err}
use carina.Volume.{Op, continue, ◌>>=◌, read, give}
use carina.Csi.{fails_with, internal_error, as_returned}

-- An error of the status package, or a panic
abbrev pub IsStatus : Error → Type 0
IsStatus (plain s) = ⊥
IsStatus (status c s) = Unit
IsStatus panic = Unit

abbrev pub AnyError : Error → Type 0
AnyError e = Unit

abbrev pub Anything : {A : Type 0} → A → Type 0
Anything a = Unit

abbrev pub Ends : {A : Type 0} → (Error → Type 0) → (A → Type 0) → Result A → Type 0
Ends E P (err e) = E e
Ends E P (ok a) = P a

module _ (E : Error → Type 0) {W : Type 0} where
  pub record EndsIn {A : Type 0} (P : A → Type 0) (op : Op W A) : Type 0 where
    pub ends : (w : W) → Ends E P (op w).0

  continued :
      {A B : Type 0} (Q : A → Type 0) (P : B → Type 0) (r : Result A × W) (next : A → Op W B)
      → Ends E Q r.0
      → ((a : A) → Q a → EndsIn P (next a))
      → Ends E P (continue r next).0
  continued Q P (err e, w) next q later = q
  continued Q P (ok a, w) next q later = (later a q).ends w

  pub EndsIn-after :
      {A B : Type 0} (Q : A → Type 0) (P : B → Type 0) (op : Op W A) (next : A → Op W B)
      → EndsIn Q op
      → ((a : A) → Q a → EndsIn P (next a))
      → EndsIn P (op >>= next)
  EndsIn-after Q P op next first later = record {
    ends = λ w. continued Q P (op w) next (first.ends w) later;
  }

  pub EndsIn-give : {A : Type 0} (P : A → Type 0) (r : Result A) → Ends E P r → EndsIn P (give r)
  EndsIn-give P r h = record { ends = λ w. h }

  pub EndsIn-read :
      {A : Type 0} (P : A → Type 0) (report : W → Result A)
      → ((w : W) → Ends E P (report w))
      → EndsIn P (read report)
  EndsIn-read P report h = record { ends = h }

pub Ends-if :
    {A : Type 0} (E : Error → Type 0) (P : A → Type 0) (b : Bool) (x y : Result A)
    → Ends E P x
    → Ends E P y
    → Ends E P (if b then x else y)
Ends-if E P true x y hx hy = hx
Ends-if E P false x y hx hy = hy

pub EndsIn-if :
    {W A : Type 0} (E : Error → Type 0) (P : A → Type 0) (b : Bool) (x y : Op W A)
    → EndsIn E P x
    → EndsIn E P y
    → EndsIn E P (if b then x else y)
EndsIn-if E P true x y hx hy = hx
EndsIn-if E P false x y hx hy = hy

-- A result without its error
pub Ends-any : {A : Type 0} (r : Result A) → Ends AnyError Anything r
Ends-any (err e) = tt
Ends-any (ok a) = tt

pub Ends-fails_with :
    {A : Type 0} (reason : Error → Error) (r : Result A)
    → ((e : Error) → IsStatus (reason e))
    → Ends IsStatus Anything (fails_with reason r)
Ends-fails_with reason (err e) h = h e
Ends-fails_with reason (ok a) h = tt

pub as_status-IsStatus : (e : Error) → IsStatus (as_status e)
unfolding as_status
as_status-IsStatus (plain s) = tt
as_status-IsStatus (status c s) = tt
as_status-IsStatus panic = tt

pub internal_error-IsStatus : (e : Error) → IsStatus (internal_error e)
unfolding internal_error
internal_error-IsStatus (plain s) = tt
internal_error-IsStatus (status c s) = tt
internal_error-IsStatus panic = tt

pub as_returned-Ends : {A : Type 0} (r : Result A) → Ends IsStatus Anything (as_returned r)
unfolding as_returned
as_returned-Ends r = Ends-fails_with as_status r as_status-IsStatus

-- The first step only has to return.
pub EndsIn-then :
    {W A B : Type 0} (P : B → Type 0) (op : Op W A) (next : A → Op W B)
    → ((a : A) → EndsIn AnyError P (next a))
    → EndsIn AnyError P (op >>= next)
EndsIn-then P op next later =
    EndsIn-after AnyError Anything P op next (record { ends = λ w. Ends-any (op w).0 })
      (λ a any. later a)
