-- ===== src/Base/Options.antt =====
-- Chains of `Option` results: the `?` operator in a function that returns an `Option`.
use mathlib.Core.Path.{◌≡◌, refl}
use native.Mathlib.Omega.{arith}
use mathlib.Core.Option.{Option, none, some}

infixl 5 ◌>>=◌
abbrev pub ◌>>=◌ {ℓ κ} : {S : Type ℓ} {T : Type κ} → Option S → (S → Option T) → Option T
none >>= next = none
some value >>= next = next value

-- Where a chain has a result, so have its first step and what comes after.
pub >>=-eq-some {ℓ κ} :
    {S : Type ℓ} {T : Type κ} {last : T} (step : Option S) (next : S → Option T)
    → (step >>= next) ≡ some last
    → (value : S) × (step ≡ some value) × (next value ≡ some last)
>>=-eq-some none next e = absurd (ground arith)
>>=-eq-some (some value) next e = (value, refl, e)
