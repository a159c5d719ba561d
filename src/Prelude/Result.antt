-- ===== src/Prelude/Result.antt =====
-- Python code that may raise: a value, or the exception.
use cloud_profiler_python.Prelude.{◌≡◌, refl, Option, none, some, ◌⊎◌, inl, inr}

-- The classes of exceptions that the agent meets. `external` is what code outside the agent raises.
pub data PyError : Type 0 where
  attribute_error type_error key_error value_error zero_division_error overflow_error : PyError
  unbound_local_error not_implemented_error index_error runtime_error external : PyError

pub data Result {ℓ} (A : Type ℓ) : Type ℓ where
  ok : A → Result A
  err : PyError → Result A

-- `none` raises.
abbrev pub or_raise {ℓ} : {A : Type ℓ} → PyError → Option A → Result A
or_raise e none = err e
or_raise e (some a) = ok a

-- What comes behind a statement that has raised is not run.
infixl 10 ◌>>=◌
abbrev pub ◌>>=◌ {ℓ κ} : {A : Type ℓ} {B : Type κ} → Result A → (A → Result B) → Result B
err raised >>= next = err raised
ok value >>= next = next value

-- A split on a computed result that keeps the equation.
pub Result-cases {ℓ} :
    {A : Type ℓ} (r : Result A) → ((a : A) × (r ≡ ok a)) ⊎ ((e : PyError) × (r ≡ err e))
Result-cases (ok a) = inl (a, refl)
Result-cases (err e) = inr (e, refl)
