-- ===== src/VersionSet/Compaction/UserRange.antt =====
-- src/version_set/version_set.rs: `get_user_range`, which compares user keys as bytes.
use pulsearc_db.Base.{false, Bytes, List, [], ◌∷◌, some, ◌≡◌, refl, arith, All, if◌then◌else◌}
use pulsearc_db.Comparator.{Comparator, compare_bytes, bytewise}
use pulsearc_db.Comparator.Order.{IsTotalOrder, bytewise-IsTotalOrder}
use pulsearc_db.VersionSet.FileMetaData.{FileMetaData}
use pulsearc_db.VersionSet.Version.{is_lt, is_gt, start_of, limit_of}
use pulsearc_db.VersionSet.Version.Overlap.{HasKeys, key_or}
use pulsearc_db.VersionSet.Compaction.{range_loop, get_user_range}

-- In the order of bytes.
abbrev pub NotAbove : Bytes → Bytes → Type 0
NotAbove a b = is_gt (compare_bytes a b) ≡ false

-- The file's user keys lie in the range.
abbrev pub InRange : Bytes → Bytes → FileMetaData → Type 0
InRange smallest largest f =
    NotAbove smallest (key_or (start_of f)) × NotAbove (key_or (limit_of f)) largest

order : IsTotalOrder bytewise
order = bytewise-IsTotalOrder

NotAbove-self : (a : Bytes) → NotAbove a a
NotAbove-self a = ground (arith, order.self a)

NotAbove-trans : (a b c : Bytes) → NotAbove a b → NotAbove b c → NotAbove a c
NotAbove-trans a b c p q = ground (
  arith,
  order.flip a b,
  order.flip b c,
  order.flip a c,
  order.trans c a b,
  order.trans b c a,
  order.trans c b a,
  order.equal a b,
  order.equal b c,
  order.equal a c,
)

lower_NotAbove :
    (s smallest : Bytes)
    → NotAbove (if is_lt (compare_bytes s smallest) then s else smallest) s
      × NotAbove (if is_lt (compare_bytes s smallest) then s else smallest) smallest
lower_NotAbove s smallest = (
  ground (arith, order.self s, order.flip s smallest),
  ground (arith, order.self smallest, order.flip s smallest),
)

higher_NotAbove :
    (l largest : Bytes)
    → NotAbove l (if is_gt (compare_bytes l largest) then l else largest)
      × NotAbove largest (if is_gt (compare_bytes l largest) then l else largest)
higher_NotAbove l largest = (
  ground (arith, order.self l, order.flip l largest),
  ground (arith, order.self largest, order.flip l largest),
)

-- What the range has when the loop ends.
abbrev Covers : List FileMetaData → Bytes → Bytes → Bytes × Bytes → Type 0
Covers files smallest largest range =
    All (InRange range.0 range.1) files × NotAbove range.0 smallest × NotAbove largest range.1

range_loop_lem :
    (files : List FileMetaData) (smallest largest : Bytes)
    → All HasKeys files
    → (range : Bytes × Bytes) × (range_loop files smallest largest ≡ some range)
      × Covers files smallest largest range
unfolding range_loop
range_loop_lem [] smallest largest h =
    ((smallest, largest), refl, (tt, NotAbove-self smallest, NotAbove-self largest))
range_loop_lem (f ∷ files) smallest largest (h, hs) =
    let lo = (if is_lt (compare_bytes h.start smallest) then h.start else smallest) in
    let hi = (if is_gt (compare_bytes h.limit largest) then h.limit else largest) in
    let (range, found, (all, low, high)) = range_loop_lem files lo hi hs in
    let (lo_start, lo_old) = lower_NotAbove h.start smallest in
    let (hi_limit, hi_old) = higher_NotAbove h.limit largest in
    (
      range,
      rw (h.at_start, h.at_limit) found,
      (
        (
          rw (h.at_start, h.at_limit)
              (
                NotAbove-trans range.0 lo h.start low lo_start,
                NotAbove-trans h.limit hi range.1 hi_limit high,
              ),
          all,
        ),
        NotAbove-trans range.0 lo smallest low lo_old,
        NotAbove-trans largest hi range.1 hi_old high,
      ),
    )

-- The range of a set of files that is not empty is found without a panic if their keys are long enough
-- to hold user keys, and in the order of bytes all of the files lie in it.
pub get_user_range-InRange :
    (f : FileMetaData) (files : List FileMetaData)
    → All HasKeys (f ∷ files)
    → (range : Bytes × Bytes) × (get_user_range (f ∷ files) ≡ some range)
      × All (InRange range.0 range.1) (f ∷ files)
unfolding get_user_range
get_user_range-InRange f files (h, hs) =
    let (range, found, (all, low, high)) = range_loop_lem files h.start h.limit hs in
    (range, rw (h.at_start, h.at_limit) found, (rw (h.at_start, h.at_limit) (low, high), all))
