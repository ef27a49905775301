-- ===== src/MergingIter.antt =====
-- src/merging_iter/merging_iter.rs: `MergingIterator`, over children that the trait `DbIterator` of
-- src/db_iter/db_iterator.rs describes. A child is a state `I` and the record of its methods; a method
-- that moves it returns the new state. `none` is a failed assertion or an index out of range.
pub mod Smallest
pub mod Forward
mod Examples
use Prim.Native.Nat.{Ordering}
use pulsearc_db.Base.{
  ℕ, zero, suc, Bool, true, false, Bytes, List, [], ◌∷◌, map, Option, none, some, get_elem?, set,
  ◌==◌, ◌&&◌, if◌then◌else◌,
}
use pulsearc_db.Base.Options.{◌>>=◌}
use pulsearc_db.Status.{Status}
use pulsearc_db.Comparator.{Comparator}
use pulsearc_db.VersionSet.Version.{is_lt, is_gt}

pub record DbIterator {ℓ} (I : Type ℓ) : Type ℓ where
  pub valid : I → Bool
  pub seek_to_first : I → I
  pub seek_to_last : I → I
  pub seek : Bytes → I → I
  pub next : I → I
  pub prev : I → I
  pub key : I → Bytes
  pub value : I → Bytes
  pub status : I → Option Status

pub data Direction : Type 0 where
  forward : Direction
  reverse : Direction

pub record MergingIterator {ℓ} (I : Type ℓ) : Type ℓ where
  pub children : List I
  pub current : Option ℕ
  pub direction : Direction

unfoldable pub is_eq : Ordering → Bool
is_eq Ordering.lt = false
is_eq Ordering.eq = true
is_eq Ordering.gt = false

module _ {ℓ} {I : Type ℓ} where
  unfoldable pub new_merging : List I → MergingIterator I
  new_merging children = record { children = children; current = none; direction = forward }

  -- The index of the best child so far, with that child.
  unfoldable pub index_of : Option (ℕ × I) → Option ℕ
  index_of none = none
  index_of (some (i, c)) = some i

  unfoldable pub current_child : MergingIterator I → Option I
  current_child m = m.current >>= λ i. get_elem? m.children i

module _ {ℓ} {I : Type ℓ} (comparator : Comparator) (it : DbIterator I) where
  unfoldable pub below_best : I → Option (ℕ × I) → Bool
  below_best c none = true
  below_best c (some (s, best)) = is_lt (comparator.compare (it.key c) (it.key best))

  unfoldable pub above_best : I → Option (ℕ × I) → Bool
  above_best c none = true
  above_best c (some (l, best)) = is_gt (comparator.compare (it.key c) (it.key best))

  -- The loops over the children from index `i` on.
  unfoldable pub smallest_loop : ℕ → List I → Option (ℕ × I) → Option (ℕ × I)
  smallest_loop i [] best = best
  smallest_loop i (c ∷ cs) best =
      smallest_loop (suc i) cs (if it.valid c && below_best c best then some (i, c) else best)

  unfoldable pub find_smallest : MergingIterator I → MergingIterator I
  find_smallest m = record m { current = index_of (smallest_loop 0 m.children none) }

  unfoldable pub largest_loop : ℕ → List I → Option (ℕ × I) → Option (ℕ × I)
  largest_loop i [] best = best
  largest_loop i (c ∷ cs) best =
      largest_loop (suc i) cs (if it.valid c && above_best c best then some (i, c) else best)

  unfoldable pub find_largest : MergingIterator I → MergingIterator I
  find_largest m = record m { current = index_of (largest_loop 0 m.children none) }

  -- Without a current child, and where the index is out of range, which `new` and the searches exclude.
  unfoldable pub merged_valid : MergingIterator I → Bool
  merged_valid m = elim (current_child m) [ none ↦ false | some c ↦ it.valid c ]

  unfoldable pub merged_seek_to_first : MergingIterator I → MergingIterator I
  merged_seek_to_first m =
      record (find_smallest (record m { children = map it.seek_to_first m.children })) {
        direction = forward;
      }

  unfoldable pub merged_seek_to_last : MergingIterator I → MergingIterator I
  merged_seek_to_last m =
      record (find_largest (record m { children = map it.seek_to_last m.children })) {
        direction = reverse;
      }

  unfoldable pub merged_seek : Bytes → MergingIterator I → MergingIterator I
  merged_seek target m =
      record (find_smallest (record m { children = map (it.seek target) m.children })) {
        direction = forward;
      }

  -- A child other than the current one, when the direction turns forward: it goes past the key.
  unfoldable pub past_key : Bytes → I → I
  past_key key c =
      let sought = it.seek key c in
      if it.valid sought && is_eq (comparator.compare key (it.key sought))
      then it.next sought
      else sought

  -- The same when the direction turns back: it goes in front of the key.
  unfoldable pub before_key : Bytes → I → I
  before_key key c =
      let sought = it.seek key c in
      if it.valid sought then it.prev sought else it.seek_to_last sought

  -- The loops over the children that leave out the current one.
  unfoldable pub turn_others : (I → I) → ℕ → ℕ → List I → List I
  turn_others turn cur i [] = []
  turn_others turn cur i (c ∷ cs) =
      (if i == cur then c else turn c) ∷ turn_others turn cur (suc i) cs

  unfoldable pub turn_forward : ℕ → Bytes → MergingIterator I → MergingIterator I
  turn_forward cur key m = elim m.direction [
    | forward ↦ m
    | reverse ↦ record m {
      children = turn_others (past_key key) cur 0 m.children;
      direction = forward;
    }
  ]

  unfoldable pub turn_reverse : ℕ → Bytes → MergingIterator I → MergingIterator I
  turn_reverse cur key m = elim m.direction [
    | reverse ↦ m
    | forward ↦ record m {
      children = turn_others (before_key key) cur 0 m.children;
      direction = reverse;
    }
  ]

  -- `self.children[cur]`, moved.
  unfoldable pub move_child : (I → I) → ℕ → MergingIterator I → Option (MergingIterator I)
  move_child move cur m =
      get_elem? m.children cur >>= λ c. some (record m { children = set m.children cur (move c) })

  unfoldable pub merged_next : MergingIterator I → Option (MergingIterator I)
  merged_next m = m.current >>= λ cur. get_elem? m.children cur >>= λ c.
      let moved =
        (move_child it.next cur (turn_forward cur (it.key c) m) >>= λ m'.
        some (find_smallest m')) in
      if it.valid c then moved else none

  unfoldable pub merged_prev : MergingIterator I → Option (MergingIterator I)
  merged_prev m = m.current >>= λ cur. get_elem? m.children cur >>= λ c.
      let moved =
        (move_child it.prev cur (turn_reverse cur (it.key c) m) >>= λ m'. some (find_largest m')) in
      if it.valid c then moved else none

  unfoldable pub merged_key : MergingIterator I → Option Bytes
  merged_key m = current_child m >>= λ c. some (it.key c)

  unfoldable pub merged_value : MergingIterator I → Option Bytes
  merged_value m = current_child m >>= λ c. some (it.value c)

  -- The first child's fault; `none` is that there is none.
  unfoldable pub first_fault : List I → Option Status
  first_fault [] = none
  first_fault (c ∷ cs) = elim (it.status c) [ some e ↦ some e | none ↦ first_fault cs ]

  unfoldable pub merged_status : MergingIterator I → Option Status
  merged_status m = first_fault m.children
