-- ===== src/Comparator.antt =====
-- src/comparator/comparator.rs: the `Comparator` trait and the bytewise order.
pub mod Order
pub mod Shorten
mod Examples
use Prim.Native.Nat.{compare, Ordering}
use pulsearc_db.Base.{
  ℕ, zero, suc, ◌+◌, min, Bytes, [], ◌∷◌, ◌++◌, length, take, get_or, ltb, ◌==◌, ◌&&◌,
  if◌then◌else◌, String,
}

-- The trait; `name` has no use in the model.
pub record Comparator : Type 0 where
  pub compare : Bytes → Bytes → Ordering
  pub find_shortest_separator : Bytes → Bytes → Bytes
  pub find_short_successor : Bytes → Bytes

-- The first order where it decides, else the second: lexicographic composition.
abbrev pub then_with : Ordering → Ordering → Ordering
then_with Ordering.lt o = Ordering.lt
then_with Ordering.eq o = o
then_with Ordering.gt o = Ordering.gt

-- `a.cmp(b)` on byte slices.
unfoldable pub compare_bytes : Bytes → Bytes → Ordering
compare_bytes [] [] = Ordering.eq
compare_bytes [] (b ∷ s) = Ordering.lt
compare_bytes (a ∷ r) [] = Ordering.gt
compare_bytes (a ∷ r) (b ∷ s) = then_with (compare a b) (compare_bytes r s)

-- The `while` loop that counts equal bytes at the heads of two slices.
unfoldable pub shared_length : Bytes → Bytes → ℕ
shared_length [] bs = 0
shared_length (a ∷ r) [] = 0
shared_length (a ∷ r) (b ∷ s) = let more = shared_length r s in if a == b then suc more else 0

unfoldable pub bytewise_separator : Bytes → Bytes → Bytes
bytewise_separator start limit =
    let diff_index = shared_length start limit in
    let diff_byte = get_or start diff_index 0 in
    if ltb diff_index (min (length start) (length limit))
    then (if ltb diff_byte 0xff && ltb (diff_byte + 1) (get_or limit diff_index 0)
        then take diff_index start ++ (diff_byte + 1) ∷ []
        else start)
    else start

-- The `for` loop over the key: it stops at the first byte that can grow.
unfoldable pub bytewise_successor : Bytes → Bytes
bytewise_successor [] = []
bytewise_successor (b ∷ r) =
    let more = bytewise_successor r in if b == 0xff then b ∷ more else (b + 1) ∷ []

abbrev pub bytewise : Comparator
bytewise = record {
  compare = compare_bytes;
  find_shortest_separator = bytewise_separator;
  find_short_successor = bytewise_successor;
}
