-- ===== src/Prelude/Run.antt =====
-- A run of a loop on fuel that may fail.
use mathlib.Core.Bool.{Bool, true, false}
use mathlib.Core.Option.{Option, none, some}
use fuchsia_minfs.Prelude.Results.{Status, Result, ok, err}

pub data Run {ℓ} (Value : Type ℓ) : Type ℓ where
  finished : Value → Run Value
  stopped : Status → Run Value
  out_of_fuel : Run Value

infixl 5 ◌>>=◌
abbrev pub ◌>>=◌ {ℓ ℓ'} : {X : Type ℓ} {Y : Type ℓ'} → Run X → (X → Run Y) → Run Y
finished value >>= next = next value
stopped status >>= next = stopped status
out_of_fuel >>= next = out_of_fuel

infixl 5 ◌>>◌
abbrev pub ◌>>◌ {ℓ} : {Y : Type ℓ} → Run (Unit {0}) → Run Y → Run Y
m >> next = m >>= λ done. next

-- `if (!test) return zx::error(status);`
abbrev pub require : Bool → Status → Run (Unit {0})
require true status = finished tt
require false status = stopped status

abbrev pub run_result {ℓ} : {X : Type ℓ} → Result X → Run X
run_result (ok value) = finished value
run_result (err status) = stopped status

abbrev pub run_option {ℓ} : {X : Type ℓ} → Option (Result X) → Run X
run_option none = out_of_fuel
run_option (some r) = run_result r
