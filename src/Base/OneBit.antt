-- ===== src/Base/OneBit.antt =====
-- Setting one bit of a number with `|` and testing it with `&`.
use Prim.Native.Nat.{ℕ, zero, suc, ◌*◌, ◌/◌, ◌%◌, ◌^◌, ◌≤◌, max, bit_and, bit_or}
use mathlib.Core.Path.{◌≡◌, refl, sym, ap, ◌∙◌}
use mathlib.Core.Logic.{◌≢◌, ◌⊎◌, inl, inr}
use native.Mathlib.Nat.{pow-suc, one-le-pow}
use native.Mathlib.Omega.{arith}
use pulsearc_db.Base.Bits.{bit_or_digit, bit_and_digit, bit_and-zero, times-double}
use pulsearc_db.Base.{◌⊎◌}

-- The bit at a position, found by halving.
bit : ℕ → ℕ → ℕ
bit zero b = b % 2
bit (suc k) b = bit k (b / 2)

bit-le : (k b : ℕ) → bit k b ≤ 1
unfolding bit
bit-le zero b = omega arith
bit-le (suc k) b = bit-le k (b / 2)

bit-bit_or : (k a b : ℕ) → bit k (bit_or a b) ≡ max (bit k a) (bit k b)
unfolding bit
bit-bit_or zero a b = omega (arith, bit_or_digit a b)
bit-bit_or (suc k) a b =
    ap (bit k) {y = bit_or (a / 2) (b / 2)} (omega (arith, bit_or_digit a b))
    ∙ bit-bit_or k (a / 2) (b / 2)

bit-pow : (k : ℕ) → bit k (2 ^ k) ≡ 1
unfolding bit
bit-pow zero = refl
bit-pow (suc k) = ap (bit k) {y = 2 ^ k} (omega (arith, pow-suc 2 k)) ∙ bit-pow k

bit-cases : (k b : ℕ) → (bit k b ≡ 0) ⊎ (bit k b ≡ 1)
bit-cases k b = ground (arith, bit-le k b)

bit_and-pow : (k b : ℕ) → bit_and b (2 ^ k) ≡ bit k b * 2 ^ k
unfolding bit
bit_and-pow zero b = omega (arith, bit_and_digit b 1, bit_and-zero (b / 2))
bit_and-pow (suc k) b =
    let half : 2 ^ suc k / 2 ≡ 2 ^ k = omega (arith, pow-suc 2 k) in
    bit_and_digit b (2 ^ suc k)
    ∙ rw (half, bit_and-pow k (b / 2)) (omega (arith, pow-suc 2 k, times-double (bit k (b / 2)) k))

bit_set : (k b : ℕ) → bit_and b (2 ^ k) ≢ 0 → bit k b ≡ 1
bit_set k b h = elim (bit-cases k b) [
  | inl clear ↦ absurd (h (bit_and-pow k b ∙ rw clear (omega arith)))
  | inr ready ↦ ready
]

set-bit : (k b : ℕ) → bit k b ≡ 1 → bit_and b (2 ^ k) ≢ 0
set-bit k b h e =
    let value : 1 * 2 ^ k ≡ 0 = sym (ap (λ (t : ℕ). t * 2 ^ k) h) ∙ sym (bit_and-pow k b) ∙ e in
    absurd (omega (arith, one-le-pow k 2 (omega arith)))

-- A bit that was set is set, and so is a bit that was set before.
pub set_bit-set : (k b : ℕ) → bit_and (bit_or b (2 ^ k)) (2 ^ k) ≢ 0
set_bit-set k b =
    set-bit k (bit_or b (2 ^ k)) (omega (arith, bit-bit_or k b (2 ^ k), bit-pow k, bit-le k b))

pub set_bit-keeps : (k b m : ℕ) → bit_and b (2 ^ k) ≢ 0 → bit_and (bit_or b m) (2 ^ k) ≢ 0
set_bit-keeps k b m h =
    set-bit k (bit_or b m) (omega (arith, bit-bit_or k b m, bit_set k b h, bit-le k m))
