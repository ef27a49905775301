-- ===== src/MergingIter/Examples.antt =====
-- src/merging_iter/merging_iter.rs on two children, with the keys `a`, `c` and `b`.
use mathlib.Core.List.{Perm}
use pulsearc_db.Base.{Bool, true, false, Bytes, List, [], ◌∷◌, none, some, ◌≡◌, refl, ap}
use pulsearc_db.Comparator.{bytewise, compare_bytes}
use pulsearc_db.Comparator.Order.{bytewise-IsTotalOrder}
use pulsearc_db.MergingIter.{
  DbIterator, MergingIterator, merged_seek_to_first, merged_valid, forward,
}
use pulsearc_db.MergingIter.Smallest.{IsForward}
use pulsearc_db.MergingIter.Forward.{merge_walk, IsAscending, merge_walk-seek_to_first}

-- A list of entries, and those that are in front. It only goes forward.
record Cursor : Type 0 where
  entries : List (Bytes × Bytes)
  rest : List (Bytes × Bytes)

abbrev is_some : List (Bytes × Bytes) → Bool
is_some [] = false
is_some (e ∷ es) = true

abbrev head_of : List (Bytes × Bytes) → Bytes × Bytes
head_of [] = ([], [])
head_of (e ∷ es) = e

abbrev tail_of : List (Bytes × Bytes) → List (Bytes × Bytes)
tail_of [] = []
tail_of (e ∷ es) = es

abbrev cursor : DbIterator Cursor
cursor = record {
  valid = λ c. is_some c.rest;
  seek_to_first = λ c. record c { rest = c.entries };
  seek_to_last = λ c. c;
  seek = λ key c. c;
  next = λ c. record c { rest = tail_of c.rest };
  prev = λ c. c;
  key = λ c. (head_of c.rest).0;
  value = λ c. (head_of c.rest).1;
  status = λ c. none;
}

cursor-IsForward : IsForward cursor (λ c. c.rest)
cursor-IsForward = record {
  at_end = λ c e. ap is_some e;
  at_entry = λ c k v es e.
      (ap is_some e, ap (λ t. (head_of t).0) e, ap (λ t. (head_of t).1) e, ap tail_of e);
}

abbrev two_children : MergingIterator Cursor
two_children = record {
  children =
      record { entries = (97 ∷ [], 1 ∷ []) ∷ (99 ∷ [], 2 ∷ []) ∷ []; rest = [] }
      ∷ record { entries = (98 ∷ [], 3 ∷ []) ∷ []; rest = [] }
      ∷ [];
  current = none;
  direction = forward;
}

ac-IsAscending :
    IsAscending bytewise bytewise-IsTotalOrder cursor
      (λ c. c.rest)
      cursor-IsForward
      ((97 ∷ [], 1 ∷ []) ∷ (99 ∷ [], 2 ∷ []) ∷ [])
unfolding compare_bytes
ac-IsAscending = ((refl, tt), (tt, tt))

merge_walk-seek_to_first_example :
    (r : List (Bytes × Bytes)) × (last : MergingIterator Cursor) × (merge_walk bytewise cursor 4
        (merged_seek_to_first bytewise cursor two_children)
      ≡ some (r, last))
    × (merged_valid bytewise cursor last ≡ false)
    × Perm r ((97 ∷ [], 1 ∷ []) ∷ (99 ∷ [], 2 ∷ []) ∷ (98 ∷ [], 3 ∷ []) ∷ [])
    × IsAscending bytewise bytewise-IsTotalOrder cursor (λ c. c.rest) cursor-IsForward r
merge_walk-seek_to_first_example =
    merge_walk-seek_to_first bytewise bytewise-IsTotalOrder cursor (λ c. c.rest) cursor-IsForward
      two_children (ac-IsAscending, ((tt, tt), tt))
