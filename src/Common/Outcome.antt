-- ===== src/Common/Outcome.antt =====
-- PHP exceptions as values: the class that is thrown, with its message.
use Prim.Native.String.{String}
use mathlib.Core.Path.{◌≡◌, refl}
use mathlib.Core.Logic.{◌⊎◌, inl, inr}

-- `random_failure` is what `php_random_bytes_throw` throws, `userland` what a called method throws.
pub data Exception : Type 0 where
  invalid_argument : String → Exception
  invalid_uuid_string : String → Exception
  unsupported_operation : String → Exception
  random_failure : Exception
  userland : Exception

pub data Result {ℓ} (A : Type ℓ) : Type ℓ where
  ok : A → Result A
  err : Exception → Result A

pub Result-cases {ℓ} :
    {A : Type ℓ} (r : Result A) → ((a : A) × (r ≡ ok a)) ⊎ ((e : Exception) × (r ≡ err e))
Result-cases (ok a) = inl (a, refl)
Result-cases (err e) = inr (e, refl)
