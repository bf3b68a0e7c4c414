-- ===== src/Prelude/Errors.antt =====
-- Calls that throw: `ERR_OUT`, `RET_ERR` and `CHECK_PTR` throw an exception that the callback
-- turns into a failure status, so a result is a value or the reason of the throw.
use mathlib.Core.Path.{◌≡◌, refl}
use mathlib.Core.Logic.{◌⊎◌, inl, inr}
use mathlib.Core.Option.{Option, none, some}
use mathlib.Core.Bool.{Bool, true, false}

pub data Error : Type 0 where
  invalid_entry out_of_buffer null_buffer unsupported_filter invalid_section unsupported_selection :
      Error
  -- A call of the underlying VOL or of MPI that failed, which `CHECK_ERR` and the like throw.
  failed_call : Error
  -- Not an exception: a step that C++ leaves undefined, as a read through a null pointer.
  undefined_behaviour : Error

pub data Result {u} (T : Type u) : Type u where
  err : Error → Result T
  ok : T → Result T

-- `if (cond) RET_ERR`.
abbrev pub throw_if : Bool → Error → Result (Unit {0})
throw_if false reason = ok tt
throw_if true reason = err reason

-- The rest of a function behind a call: it runs on the value, an exception leaves it out.
infixl 5 ◌>>=◌ ◌>>◌
abbrev pub ◌>>=◌ {u v} : {T : Type u} {R : Type v} → Result T → (T → Result R) → Result R
err reason >>= rest = err reason
ok value >>= rest = rest value

abbrev pub ◌>>◌ {u} : {R : Type u} → Result (Unit {0}) → Result R → Result R
call >> rest = call >>= λ done. rest

-- A result is an error or a value.
pub Result-cases {u} :
    {A : Type u} (r : Result A) → ((e : Error) × (r ≡ err e)) ⊎ ((a : A) × (r ≡ ok a))
Result-cases (ok a) = inr (a, refl)
Result-cases (err e) = inl (e, refl)

pub Option-cases {u} : {A : Type u} (o : Option A) → (o ≡ none) ⊎ ((a : A) × (o ≡ some a))
Option-cases none = inl refl
Option-cases (some a) = inr (a, refl)
