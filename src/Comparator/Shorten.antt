-- ===== src/Comparator/Shorten.antt =====
-- The keys that the index block stores in place of whole keys.
use Prim.Native.Nat.{Ordering}
use pulsearc_db.Comparator.{
  Comparator, compare_bytes, shared_length, bytewise_separator, bytewise_successor, bytewise,
}
use pulsearc_db.Base.{
  ℕ, ◌≤◌, ◌+◌, Bytes, [], ◌∷◌, ◌≡◌, ◌≢◌, ap, arith, length, ==_refl, Bool-cases, if◌then◌else◌, ltb,
  ◌==◌, inl, ◌&&◌, inr,
}
use pulsearc_db.Comparator.Order.{compare_bytes_self}

-- What the trait asks of the shortening functions: for `start < limit` the separator lies in
-- `[start, limit)`, and the successor does not lie below its key.
pub record Shortens (c : Comparator) : Type 0 where
  pub above :
      (start limit : Bytes)
      → c.compare start limit ≡ Ordering.lt
      → c.compare start (c.find_shortest_separator start limit) ≢ Ordering.gt
  pub below :
      (start limit : Bytes)
      → c.compare start limit ≡ Ordering.lt
      → c.compare (c.find_shortest_separator start limit) limit ≡ Ordering.lt
  pub successor : (key : Bytes) → c.compare key (c.find_short_successor key) ≢ Ordering.gt

-- One equal byte at the heads of both arguments stays in front of the separator.
separator-cons :
    (a : ℕ) (start limit : Bytes)
    → bytewise_separator (a ∷ start) (a ∷ limit) ≡ a ∷ bytewise_separator start limit
unfolding bytewise_separator shared_length
separator-cons a start limit = ground (arith, ==_refl a)

-- An empty start, or an empty limit, leaves the start.
separator-nil : (limit : Bytes) → bytewise_separator [] limit ≡ []
unfolding bytewise_separator shared_length
separator-nil limit = ground arith

separator_no_limit : (a : ℕ) (r : Bytes) → bytewise_separator (a ∷ r) [] ≡ a ∷ r
unfolding bytewise_separator shared_length
separator_no_limit a r = ground arith

-- Where the first bytes differ, the separator is decided by them.
separator_differ :
    (a b : ℕ) (start limit : Bytes)
    → a ≢ b
    → bytewise_separator (a ∷ start) (b ∷ limit)
      ≡ (if ltb a 0xff && ltb (a + 1) b then (a + 1) ∷ [] else a ∷ start)
unfolding bytewise_separator shared_length
separator_differ a b start limit ne = ground arith

bytewise_separator_above :
    (start limit : Bytes)
    → compare_bytes start limit ≡ Ordering.lt
    → compare_bytes start (bytewise_separator start limit) ≢ Ordering.gt
unfolding compare_bytes
bytewise_separator_above [] limit h = ground (arith, separator-nil limit)
bytewise_separator_above (a ∷ r) [] h = λ e. cc
bytewise_separator_above (a ∷ r) (b ∷ s) h = elim (Bool-cases (a == b)) [
  | inl same ↦ ground (arith, separator-cons a r s, bytewise_separator_above r s)
  | inr other ↦ ground (arith, separator_differ a b r s, compare_bytes_self r)
]

bytewise_separator_below :
    (start limit : Bytes)
    → compare_bytes start limit ≡ Ordering.lt
    → compare_bytes (bytewise_separator start limit) limit ≡ Ordering.lt
unfolding compare_bytes
bytewise_separator_below [] limit h = rw (separator-nil limit) h
bytewise_separator_below (a ∷ r) [] h = cc
bytewise_separator_below (a ∷ r) (b ∷ s) h = elim (Bool-cases (a == b)) [
  | inl same ↦ ground (arith, separator-cons a r s, bytewise_separator_below r s)
  | inr other ↦ ground (arith, separator_differ a b r s)
]

bytewise_successor_above : (key : Bytes) → compare_bytes key (bytewise_successor key) ≢ Ordering.gt
unfolding compare_bytes bytewise_successor
bytewise_successor_above [] e = cc
bytewise_successor_above (b ∷ r) e = ground (arith, bytewise_successor_above r)

pub bytewise-Shortens : Shortens bytewise
bytewise-Shortens = record {
  above = bytewise_separator_above;
  below = bytewise_separator_below;
  successor = bytewise_successor_above;
}

-- Shortening never makes a key longer.
pub length-bytewise_separator :
    (start limit : Bytes) → length (bytewise_separator start limit) ≤ length start
length-bytewise_separator [] limit = omega (arith, ap length (separator-nil limit))
length-bytewise_separator (a ∷ r) [] = omega (arith, ap length (separator_no_limit a r))
length-bytewise_separator (a ∷ r) (b ∷ s) = elim (Bool-cases (a == b)) [
  | inl same ↦ ground (arith, separator-cons a r s, length-bytewise_separator r s)
  | inr other ↦ ground (arith, separator_differ a b r s)
]

pub length-bytewise_successor : (key : Bytes) → length (bytewise_successor key) ≤ length key
unfolding bytewise_successor
length-bytewise_successor [] = omega arith
length-bytewise_successor (b ∷ r) = ground (arith, length-bytewise_successor r)

-- For `start < limit` the separator lies in `[start, limit)` and is no longer than `start`.
pub bytewise_separator-between :
    (start limit : Bytes)
    → compare_bytes start limit ≡ Ordering.lt
    → (compare_bytes start (bytewise_separator start limit) ≢ Ordering.gt)
      × (compare_bytes (bytewise_separator start limit) limit ≡ Ordering.lt)
      × (length (bytewise_separator start limit) ≤ length start)
bytewise_separator-between start limit h = (
  bytewise_separator_above start limit h,
  bytewise_separator_below start limit h,
  length-bytewise_separator start limit,
)

-- The successor of a key does not lie below the key and is no longer than it.
pub bytewise_successor_bounds :
    (key : Bytes)
    → (compare_bytes key (bytewise_successor key) ≢ Ordering.gt)
      × (length (bytewise_successor key) ≤ length key)
bytewise_successor_bounds key = (bytewise_successor_above key, length-bytewise_successor key)
