-- ===== src/Python/Errors.antt =====
-- Exceptions as values: `_errors.py` of the binding (bindings/python/par_runtime), its `ImageError`,
-- and the built-in classes that the binding raises, catches or lets through.
use par.Prelude.{String, Bool, true, false, ◌≡◌, ◌⊎◌, inl, inr, refl}
use par.Python.Json.{Json, str}

pub data ErrorKind : Type 0 where
  par_error init_error invoke_error tool_error workflow_error : ErrorKind
  image_error : ErrorKind
  json_decode unicode_decode value_error type_error key_error attribute_error : ErrorKind
  os_error runtime_error assertion_error : ErrorKind

-- An exception with the argument that it was raised with.
pub data Error : Type 0 where
  exception : ErrorKind → Json → Error

abbrev pub kind_of : Error → ErrorKind
kind_of (exception k a) = k

-- `isinstance(e, PARError)`: what `except PARError` catches.
abbrev pub is_par_error : ErrorKind → Bool
is_par_error par_error = true
is_par_error init_error = true
is_par_error invoke_error = true
is_par_error tool_error = true
is_par_error workflow_error = true
is_par_error _ = false

-- `isinstance(e, ValueError)`
abbrev pub is_value_error : ErrorKind → Bool
is_value_error value_error = true
is_value_error image_error = true
is_value_error json_decode = true
is_value_error unicode_decode = true
is_value_error _ = false

pub data Result {ℓ} (A : Type ℓ) : Type ℓ where
  ok : A → Result A
  raised : Error → Result A

module _ {ℓ} {A : Type ℓ} where
  -- `raise Kind(message)`
  abbrev pub fails : ErrorKind → String → Result A
  fails k message = raised (exception k (str message))

-- The next step, unless the step before raised.
infixl 5 ◌▹◌
abbrev pub ◌▹◌ {ℓ κ} : {A : Type ℓ} {B : Type κ} → Result A → (A → Result B) → Result B
ok a ▹ f = f a
raised e ▹ f = raised e

pub Result-cases :
    {A : Type 0} (r : Result A) → ((a : A) × (r ≡ ok a)) ⊎ ((e : Error) × (r ≡ raised e))
Result-cases (ok a) = inl (a, refl)
Result-cases (raised e) = inr (e, refl)
