-- ===== src/Errors.antt =====
-- Error values of the program. A Go error is a text, or a gRPC status with a code; a nil dereference
-- or an index out of range is a panic.
use carina.Base.{String, ◌≡◌, refl, Bool, true, false, Option, none, some, ◌<>◌}

-- The codes of google.golang.org/grpc/codes that the program uses.
pub data Code : Type 0 where
  code_ok aborted already_exists failed_precondition internal invalid_argument : Code
  not_found resource_exhausted : Code

pub data Error : Type 0 where
  plain : String → Error
  status : Code → String → Error
  panic : Error

-- A Go pair of a value and an error, or an error alone for the unit.
pub data Result {ℓ} (V : Type ℓ) : Type ℓ where
  err : Error → Result V
  ok : V → Result V

infixl 5 ◌>>=◌
abbrev pub ◌>>=◌ {ℓ κ} : {V : Type ℓ} {T : Type κ} → Result V → (next : V → Result T) → Result T
err e >>= next = err e
ok v >>= next = next v

infixl 5 ◌>>◌
abbrev pub ◌>>◌ {ℓ} : {T : Type ℓ} → Result (Unit {0}) → Result T → Result T
first >> second = first >>= λ done. second

-- `if test { return ..., e }`
abbrev pub fail_if : Bool → Error → Result (Unit {0})
fail_if true e = err e
fail_if false e = ok tt

-- codes.Code.String()
abbrev code_name : Code → String
code_name code_ok = "OK"
code_name aborted = "Aborted"
code_name already_exists = "AlreadyExists"
code_name failed_precondition = "FailedPrecondition"
code_name internal = "Internal"
code_name invalid_argument = "InvalidArgument"
code_name not_found = "NotFound"
code_name resource_exhausted = "ResourceExhausted"

-- err.Error(); a panic has no text
unfoldable pub message : Error → String
message (plain s) = s
message (status c s) = "rpc error: code = " <> (code_name c <> (" desc = " <> s))
message panic = ""

-- errors.New(text + err.Error()) on an error
unfoldable pub wrap {ℓ} : {A : Type ℓ} → String → Result A → Result A
unfolding message
wrap text (ok a) = ok a
wrap text (err panic) = err panic
wrap text (err e) = err (plain (text <> message e))

-- `status.FromError(err)` recognises a status; another error becomes an internal one.
unfoldable pub as_status : Error → Error
as_status (plain s) = status internal s
as_status (status c s) = status c s
as_status panic = panic

abbrev pub is_ok {ℓ} : {A : Type ℓ} → Result A → Bool
is_ok (ok a) = true
is_ok (err e) = false

-- `v, _ := f()`: the error is dropped and the value is nil when there was one.
abbrev pub to_option {ℓ} : {A : Type ℓ} → Result A → Option A
to_option (ok a) = some a
to_option (err e) = none

pub >>=-eq-ok {ℓ κ} :
    {V : Type ℓ} {T : Type κ} (first : Result V) (next : V → Result T) {t : T}
    → (first >>= next) ≡ ok t
    → (v : V) × (first ≡ ok v) × (next v ≡ ok t)
>>=-eq-ok (err e) next returned = cc
>>=-eq-ok (ok v) next returned = (v, refl, returned)
