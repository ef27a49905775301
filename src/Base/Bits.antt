-- ===== src/Base/Bits.antt =====
-- `|`, `&` and `^` as arithmetic: a law for the lowest digit, fields, masks and bounds.
use Prim.Native.Nat.{
  ℕ, zero, suc, ◌+◌, ◌*◌, ◌/◌, ◌%◌, ◌^◌, ◌≤◌, ◌<◌, min, max, digits, bitwise, differ, bit_and,
  bit_or, bit_xor, bit_and-bitwise, bit_or-bitwise, bit_xor-bitwise,
}
use mathlib.Core.Path.{◌≡◌, refl, sym, ap, ◌∙◌}
use native.Mathlib.Nat.{pow-suc, one-le-pow, mod-lt, div-add-mod'}
use native.Mathlib.Omega.{arith}

-- The count of digits to go does not matter once it covers the first number.
module _ (edge : ℕ → ℕ) (digit : ℕ → ℕ → ℕ) where
  digits_count :
      (fuel fuel' x y : ℕ)
      → x ≤ fuel
      → x ≤ fuel'
      → digits edge digit fuel x y ≡ digits edge digit fuel' x y
  digits_count zero zero x y below above = refl
  digits_count zero (suc fuel') zero y below above = refl
  digits_count zero (suc fuel') (suc x) y below above = absurd (omega arith)
  digits_count (suc fuel) zero zero y below above = refl
  digits_count (suc fuel) zero (suc x) y below above = absurd (omega arith)
  digits_count (suc fuel) (suc fuel') zero y below above = refl
  digits_count (suc fuel) (suc fuel') (suc x) y below above =
      ap (λ (t : ℕ). t * 2 + digit (suc x % 2) (y % 2))
        (digits_count fuel fuel' (suc x / 2) (y / 2) (omega arith) (omega arith))

  lowest_digit :
      (x y : ℕ)
      → bitwise edge digit (suc x) y
        ≡ bitwise edge digit (suc x / 2) (y / 2) * 2 + digit (suc x % 2) (y % 2)
  lowest_digit x y =
      ap (λ (t : ℕ). t * 2 + digit (suc x % 2) (y % 2))
        (digits_count x (suc x / 2) (suc x / 2) (y / 2) (omega arith) (omega arith))

pub bit_or_digit : (x y : ℕ) → bit_or x y ≡ bit_or (x / 2) (y / 2) * 2 + max (x % 2) (y % 2)
bit_or_digit zero y = simp bit_or-bitwise (omega arith)
bit_or_digit (suc x) y = simp bit_or-bitwise (lowest_digit (λ d. d) max x y)

pub bit_and_digit : (x y : ℕ) → bit_and x y ≡ bit_and (x / 2) (y / 2) * 2 + min (x % 2) (y % 2)
bit_and_digit zero y = simp bit_and-bitwise (omega arith)
bit_and_digit (suc x) y = simp bit_and-bitwise (lowest_digit (λ d. 0) min x y)

bit_xor_digit : (x y : ℕ) → bit_xor x y ≡ bit_xor (x / 2) (y / 2) * 2 + differ (x % 2) (y % 2)
bit_xor_digit zero y = simp bit_xor-bitwise (omega arith)
bit_xor_digit (suc x) y = simp bit_xor-bitwise (lowest_digit (λ d. d) differ x y)

zero-bit_or : (b : ℕ) → bit_or 0 b ≡ b
zero-bit_or b = simp bit_or-bitwise

bit_or-zero_within : (n a : ℕ) → a ≤ n → bit_or a 0 ≡ a
bit_or-zero_within n zero h = refl
bit_or-zero_within zero (suc a) h = absurd (omega arith)
bit_or-zero_within (suc n) (suc a) h =
    omega (arith, bit_or_digit (suc a) 0, bit_or-zero_within n (suc a / 2) (omega arith))

bit_and-zero_within : (n a : ℕ) → a ≤ n → bit_and a 0 ≡ 0
bit_and-zero_within n zero h = simp bit_and-bitwise
bit_and-zero_within zero (suc a) h = absurd (omega arith)
bit_and-zero_within (suc n) (suc a) h =
    omega (arith, bit_and_digit (suc a) 0, bit_and-zero_within n (suc a / 2) (omega arith))

pub bit_and-zero : (a : ℕ) → bit_and a 0 ≡ 0
bit_and-zero a = bit_and-zero_within a a (omega arith)

pub times-double : (q k : ℕ) → q * 2 ^ suc k ≡ 2 * (q * 2 ^ k)
times-double q k = omega (arith, ap (λ (t : ℕ). q * t) (pow-suc 2 k))

-- `r | (q << k)` is a sum when `r` fits in `k` bits.
pub low-bit_or-shifted : (k q r : ℕ) → r < 2 ^ k → bit_or r (q * 2 ^ k) ≡ r + q * 2 ^ k
low-bit_or-shifted zero q zero h = simp zero-bit_or (omega arith)
low-bit_or-shifted zero q (suc r) h = absurd (omega arith)
low-bit_or-shifted (suc k) q r h = ground (
  arith,
  bit_or_digit r (q * 2 ^ suc k),
  times-double q k,
  pow-suc 2 k,
  low-bit_or-shifted k q (r / 2) (omega (arith, pow-suc 2 k)),
)

-- `(q << k) | r`.
pub shifted-bit_or-low : (k q r : ℕ) → r < 2 ^ k → bit_or (q * 2 ^ k) r ≡ q * 2 ^ k + r
shifted-bit_or-low zero q zero h =
    omega (arith, bit_or-zero_within (q * 2 ^ 0) (q * 2 ^ 0) (omega arith))
shifted-bit_or-low zero q (suc r) h = absurd (omega arith)
shifted-bit_or-low (suc k) q r h = ground (
  arith,
  bit_or_digit (q * 2 ^ suc k) r,
  times-double q k,
  pow-suc 2 k,
  shifted-bit_or-low k q (r / 2) (omega (arith, pow-suc 2 k)),
)

-- `a & (2^k - 1)` is the remainder by `2 ^ k`; the mask is given as a number `m`.
bit_and_low : (k m q r : ℕ) → suc m ≡ 2 ^ k → r < 2 ^ k → bit_and (q * 2 ^ k + r) m ≡ r
bit_and_low zero (suc m) q zero e h = absurd (omega arith)
bit_and_low zero zero q zero e h = bit_and-zero_within (q * 2 ^ 0 + 0) (q * 2 ^ 0 + 0) (omega arith)
bit_and_low zero m q (suc r) e h = absurd (omega arith)
bit_and_low (suc k) m q r e h = ground (
  arith,
  bit_and_digit (q * 2 ^ suc k + r) m,
  times-double q k,
  pow-suc 2 k,
  one-le-pow k 2,
  bit_and_low k (m / 2) q (r / 2) (omega (arith, pow-suc 2 k, one-le-pow k 2))
      (omega (arith, pow-suc 2 k)),
)

pub bit_and-mask : (k m a : ℕ) → suc m ≡ 2 ^ k → bit_and a m ≡ a % 2 ^ k
bit_and-mask k m a e =
    let low = bit_and_low k m (a / 2 ^ k) (a % 2 ^ k) e (mod-lt a (one-le-pow k 2 (omega arith))) in
    ap (λ (t : ℕ). bit_and t m) (sym (div-add-mod' a (2 ^ k))) ∙ low

differ-lt : (a b : ℕ) → a < 2 → b < 2 → differ a b < 2
differ-lt zero b ha hb = hb
differ-lt (suc zero) zero ha hb = omega arith
differ-lt (suc zero) (suc zero) ha hb = omega arith
differ-lt (suc zero) (suc (suc b)) ha hb = absurd (omega arith)
differ-lt (suc (suc a)) b ha hb = absurd (omega arith)

-- An exclusive or of two numbers of `k` bits has `k` bits.
pub bit_xor-lt : (k a b : ℕ) → a < 2 ^ k → b < 2 ^ k → bit_xor a b < 2 ^ k
bit_xor-lt zero zero zero ha hb = omega arith
bit_xor-lt zero (suc a) b ha hb = absurd (omega arith)
bit_xor-lt zero zero (suc b) ha hb = absurd (omega arith)
bit_xor-lt (suc k) a b ha hb = omega (
  arith,
  pow-suc 2 k,
  bit_xor_digit a b,
  differ-lt (a % 2) (b % 2) (omega arith) (omega arith),
  bit_xor-lt k (a / 2) (b / 2) (omega (arith, pow-suc 2 k)) (omega (arith, pow-suc 2 k)),
)

-- An inclusive or as well.
pub bit_or-lt : (k a b : ℕ) → a < 2 ^ k → b < 2 ^ k → bit_or a b < 2 ^ k
bit_or-lt zero zero zero ha hb = omega arith
bit_or-lt zero (suc a) b ha hb = absurd (omega arith)
bit_or-lt zero zero (suc b) ha hb = absurd (omega arith)
bit_or-lt (suc k) a b ha hb = omega (
  arith,
  pow-suc 2 k,
  bit_or_digit a b,
  bit_or-lt k (a / 2) (b / 2) (omega (arith, pow-suc 2 k)) (omega (arith, pow-suc 2 k)),
)

differ-cancel : (a b : ℕ) → a < 2 → b < 2 → differ (differ a b) b ≡ a
differ-cancel zero zero ha hb = refl
differ-cancel zero (suc zero) ha hb = refl
differ-cancel (suc zero) zero ha hb = refl
differ-cancel (suc zero) (suc zero) ha hb = refl
differ-cancel (suc (suc a)) b ha hb = absurd (omega arith)
differ-cancel zero (suc (suc b)) ha hb = absurd (omega arith)
differ-cancel (suc zero) (suc (suc b)) ha hb = absurd (omega arith)

-- `^` twice with one number cancels.
pub bit_xor-cancel : (k a b : ℕ) → a < 2 ^ k → b < 2 ^ k → bit_xor (bit_xor a b) b ≡ a
bit_xor-cancel zero zero zero ha hb = refl
bit_xor-cancel zero (suc a) b ha hb = absurd (omega arith)
bit_xor-cancel zero zero (suc b) ha hb = absurd (omega arith)
bit_xor-cancel (suc k) a b ha hb =
    let small = differ-lt (a % 2) (b % 2) (omega arith) (omega arith) in
    let half : bit_xor a b / 2 ≡ bit_xor (a / 2) (b / 2) = omega (arith, bit_xor_digit a b) in
    let low : bit_xor a b % 2 ≡ differ (a % 2) (b % 2) = omega (arith, bit_xor_digit a b) in
    bit_xor_digit (bit_xor a b) b
    ∙ rw
        (
          half,
          low,
          differ-cancel (a % 2) (b % 2) (omega arith) (omega arith),
          bit_xor-cancel k (a / 2) (b / 2) (omega (arith, pow-suc 2 k))
              (omega (arith, pow-suc 2 k)),
        )
        (omega arith)
