-- ===== src/Prelude/Results.antt =====
-- zx::status<T>: a value, or one of the error codes of Zircon that the code returns.
use mathlib.Core.Bool.{Bool, true, false}
use mathlib.Core.Path.{◌≡◌, refl}

pub data Status : Type 0 where
  bad_state invalid_args io not_found not_supported no_space out_of_range : Status
  not_empty not_dir not_file unavailable file_big io_data_integrity already_exists : Status
  wrong_type io_refused io_invalid : Status

pub data Result {ℓ} (Value : Type ℓ) : Type ℓ where
  err : Status → Result Value
  ok : Value → Result Value

infixl 5 ◌>>=◌
abbrev pub ◌>>=◌ {ℓ ℓ'} : {X : Type ℓ} {Y : Type ℓ'} → Result X → (X → Result Y) → Result Y
err status >>= next = err status
ok value >>= next = next value

infixl 5 ◌>>◌
abbrev pub ◌>>◌ {ℓ} : {Y : Type ℓ} → Result (Unit {0}) → Result Y → Result Y
err status >> next = err status
ok value >> next = next

-- `if (!test) return zx::error(status);`
abbrev pub guard : Bool → Status → Result (Unit {0})
guard false status = err status
guard true status = ok tt

pub >>-ok :
    {X : Type 0} (x : Result (Unit {0})) (y : Result X) (r : X)
    → (x >> y) ≡ ok r
    → (x ≡ ok tt) × (y ≡ ok r)
>>-ok (ok u) y r e = (refl, e)
>>-ok (err s) y r e = absurd cc
