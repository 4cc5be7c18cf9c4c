-- ===== src/Errors.antt =====
-- hermeto/core/errors.py: the exceptions, by class. Their messages are not modelled; `value_error`,
-- `index_error`, `key_error`, `type_error` and `runtime_error` are Python's.
use mathlib.Core.Path.{◌≡◌, refl}
use mathlib.Core.Logic.{◌⊎◌, inl, inr}

pub data Error : Type 0 where
  path_outside_root package_rejected unexpected_format unsupported_feature invalid_input : Error
  missing_checksum invalid_checksum checksum_verification_failed base_error : Error
  lockfile_not_found invalid_lockfile_format package_manager_error : Error
  value_error index_error key_error type_error runtime_error : Error
  fetch_error : Error

-- What a function that may raise gives: the exception, or the value.
pub data Result {ℓ} (Value : Type ℓ) : Type ℓ where
  err : (raised : Error) → Result Value
  ok : (value : Value) → Result Value

pub Result-cases {ℓ} :
    {Value : Type ℓ} (outcome : Result Value)
    → ((e : Error) × (outcome ≡ err e)) ⊎ ((v : Value) × (outcome ≡ ok v))
Result-cases (err e) = inl (e, refl)
Result-cases (ok v) = inr (v, refl)

-- The steps behind a step that may raise.
infixl 5 ◌>>=◌
abbrev pub ◌>>=◌ {κ ℓ} :
    {Value : Type κ} {Next : Type ℓ} → Result Value → (Value → Result Next) → Result Next
err raised >>= next = err raised
ok value >>= next = next value

-- If two steps return, the first one does, and the second one does on its value.
pub >>=-eq-ok {κ ℓ} :
    {Value : Type κ} {Next : Type ℓ} (first : Result Value) (next : Value → Result Next)
    {result : Next}
    → (first >>= next) ≡ ok result
    → (v : Value) × (first ≡ ok v) × (next v ≡ ok result)
>>=-eq-ok (err raised) next returns = cc
>>=-eq-ok (ok value) next returns = (value, refl, returns)

pub ok_injective {ℓ} : {Value : Type ℓ} {v w : Value} → ◌≡◌ {A = Result Value} (ok v) (ok w) → v ≡ w
ok_injective h = cc

-- What raises does not return.
pub not_returned {ℓ} :
    {Value : Type ℓ} {e : Error} {v : Value} → ◌≡◌ {A = Result Value} (err e) (ok v) → ⊥
not_returned h = cc
