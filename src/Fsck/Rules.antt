-- ===== src/Fsck/Rules.antt =====
-- Runs that are put together: what their parts have done, and that they end.
use fuchsia_minfs.Prelude.{◌≡◌, ◌≢◌, refl, Bool, true, false, Status}
use fuchsia_minfs.Prelude.Run.{Run, finished, stopped, out_of_fuel, ◌>>=◌, ◌>>◌, require}

pub bind-ends :
    {X : Type 0} {Y : Type 0} (m : Run X) (f : X → Run Y)
    → m ≢ out_of_fuel
    → ((x : X) → m ≡ finished x → f x ≢ out_of_fuel)
    → (m >>= f) ≢ out_of_fuel
bind-ends (finished x) f h k = k x refl
bind-ends (stopped status) f h k = λ e. cc e
bind-ends out_of_fuel f h k = absurd (h refl)

pub require-ends :
    {Y : Type 0} (b : Bool) (status : Status) (m : Run Y)
    → m ≢ out_of_fuel
    → (require b status >> m) ≢ out_of_fuel
require-ends true status m h = h
require-ends false status m h = λ e. cc e

pub require-then :
    {Y : Type 0} (b : Bool) (status : Status) (m : Run Y) {y : Y}
    → (require b status >> m) ≡ finished y
    → (b ≡ true) × (m ≡ finished y)
require-then true status m h = (refl, h)
require-then false status m h = absurd (cc h)

pub bind-then :
    {X : Type 0} {Y : Type 0} (m : Run X) (f : X → Run Y) {y : Y}
    → (m >>= f) ≡ finished y
    → (x : X) × (m ≡ finished x) × (f x ≡ finished y)
bind-then (finished x) f h = (x, refl, h)
bind-then (stopped status) f h = absurd (cc h)
bind-then out_of_fuel f h = absurd (cc h)
