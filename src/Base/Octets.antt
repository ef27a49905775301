-- ===== src/Base/Octets.antt =====
-- The top bit and the low seven bits of a byte, each law checked at all 256 values.
use Prim.Native.Nat.{ℕ, zero, suc, ◌+◌, ◌*◌, ◌/◌, ◌%◌, ◌<◌, bit_and, bit_or}
use mathlib.Core.Path.{◌≡◌, refl}
use mathlib.Core.Bool.{Bool, true, ◌&&◌}
use native.Mathlib.Omega.{arith}
use pulsearc_db.Base.Tests.{◌==◌, ==→eq}

-- `f` and `g` have the same values at every number below `n`.
same_below : (f g : ℕ → ℕ) → ℕ → Bool
same_below f g zero = true
same_below f g (suc n) = f n == g n && same_below f g n

same_below→eq : (f g : ℕ → ℕ) (n i : ℕ) → same_below f g n ≡ true → i < n → f i ≡ g i
unfolding same_below
same_below→eq f g zero i e h = absurd (omega arith)
same_below→eq f g (suc n) i e h = ground (arith, same_below→eq f g n i, ==→eq (f n) (g n))

pub seven_bits : (b : ℕ) → b < 256 → bit_and b 0x7f ≡ b % 128
unfolding same_below
seven_bits b = same_below→eq (λ x. bit_and x 0x7f) (λ x. x % 128) 256 b refl

pub eighth_bit : (b : ℕ) → b < 256 → bit_and b 0x80 ≡ b / 128 * 128
unfolding same_below
eighth_bit b = same_below→eq (λ x. bit_and x 0x80) (λ x. x / 128 * 128) 256 b refl

pub with_eighth_bit : (b : ℕ) → b < 128 → bit_or b 0x80 ≡ b + 128
unfolding same_below
with_eighth_bit b = same_below→eq (λ x. bit_or x 0x80) (λ x. x + 128) 128 b refl
