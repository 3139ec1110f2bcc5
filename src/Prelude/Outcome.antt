-- ===== src/Prelude/Outcome.antt =====
-- What a call of fallible code leaves: a value, an error, or a failed ZX_ASSERT.
use mathlib.Core.Bool.{Bool, true, false}
use fuchsia_minfs.Prelude.Results.{Status, Result, ok, err}

pub data Outcome {ℓ} (Value : Type ℓ) : Type ℓ where
  returned : Value → Outcome Value
  failed : Status → Outcome Value
  crashed : Outcome Value

infixl 5 ◌>>=◌
abbrev pub ◌>>=◌ {ℓ ℓ'} : {X : Type ℓ} {Y : Type ℓ'} → Outcome X → (X → Outcome Y) → Outcome Y
returned value >>= next = next value
failed status >>= next = failed status
crashed >>= next = crashed

infixl 5 ◌>>◌
abbrev pub ◌>>◌ {ℓ} : {Y : Type ℓ} → Outcome (Unit {0}) → Outcome Y → Outcome Y
returned value >> next = next
failed status >> next = failed status
crashed >> next = crashed

-- ZX_ASSERT(test).
abbrev pub zx_assert : Bool → Outcome (Unit {0})
zx_assert true = returned tt
zx_assert false = crashed

abbrev pub from_result {ℓ} : {X : Type ℓ} → Result X → Outcome X
from_result (ok value) = returned value
from_result (err status) = failed status
