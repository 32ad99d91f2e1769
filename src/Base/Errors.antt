-- ===== src/Base/Errors.antt =====
-- api/src/common/errors.ts: the errors that a request is refused with, and the chains that they
-- cut short. The optional list of details is left out; no operation modelled here gives one.
use Prim.Native.Nat.{ℕ}
use Prim.Native.String.{String}
use mathlib.Core.Bool.{Bool, true, false}
use mathlib.Core.Path.{◌≡◌, refl}
use mathlib.Core.Logic.{◌⊎◌, inl, inr}

pub record AppError : Type 0 where
  pub code : String
  pub message : String
  pub status : ℕ

-- The four named constructors, and the default status of the fifth.
abbrev pub bad_request : String → String → AppError
bad_request code message = record { code = code; message = message; status = 400 }

abbrev pub unauthorized : String → String → AppError
unauthorized code message = record { code = code; message = message; status = 401 }

abbrev pub forbidden : String → String → AppError
forbidden code message = record { code = code; message = message; status = 403 }

abbrev pub not_found : String → String → AppError
not_found code message = record { code = code; message = message; status = 404 }

abbrev pub conflict : String → String → AppError
conflict code message = record { code = code; message = message; status = 409 }

pub data Result {ℓ} (A : Type ℓ) : Type ℓ where
  ok : A → Result A
  err : AppError → Result A

infixl 5 ◌>>=◌ ◌>>◌
abbrev pub ◌>>=◌ {ℓ κ} : {A : Type ℓ} {B : Type κ} → Result A → (A → Result B) → Result B
ok value >>= next = next value
err error >>= next = err error

abbrev pub ◌>>◌ {ℓ} : {B : Type ℓ} → Result (Unit {0}) → Result B → Result B
first >> second = first >>= λ _. second

-- `if (test) throw error;`
abbrev pub throw_if : Bool → AppError → Result (Unit {0})
throw_if true e = err e
throw_if false e = ok tt

pub Result-cases {ℓ} :
    {A : Type ℓ} (r : Result A) → ((a : A) × (r ≡ ok a)) ⊎ ((e : AppError) × (r ≡ err e))
Result-cases (ok a) = inl (a, refl)
Result-cases (err e) = inr (e, refl)
