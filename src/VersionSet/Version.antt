-- ===== src/VersionSet/Version.antt =====
-- src/version_set/version_set.rs: a snapshot of the tree's files, and the searches in it. `none` is a
-- panic: a level or a file's key that is out of range. The comparator that a version holds is an argument,
-- and a version is the files of its levels. The sum of the files' sizes is a u64,
-- and wraps.
pub mod FindFile
pub mod Overlap
use Prim.Native.Nat.{Ordering}
use pulsearc_db.Base.{
  ℕ, zero, suc, ◌+◌, ◌-◌, ◌*◌, ◌/◌, ◌^◌, Bool, true, false, Bytes, List, [], ◌∷◌, ◌++◌, Option,
  none, some, length, get_elem?, replicate, ltb, leb, ◌==◌, ◌&&◌, ◌||◌, not, if◌then◌else◌, ◌%◌,
}
use pulsearc_db.Base.Options.{◌>>=◌}
use pulsearc_db.Comparator.{Comparator}
use pulsearc_db.Format.{num_levels, internal_compare, extract_user_key}
use pulsearc_db.VersionSet.FileMetaData.{FileMetaData}

abbrev pub target_file_size : ℕ
target_file_size = 2097152

abbrev pub max_grandparent_overlap_bytes : ℕ
max_grandparent_overlap_bytes = 20971520

abbrev pub max_mem_compact_level : ℕ
max_mem_compact_level = 2

abbrev pub is_lt : Ordering → Bool
is_lt Ordering.lt = true
is_lt Ordering.eq = false
is_lt Ordering.gt = false

abbrev pub is_gt : Ordering → Bool
is_gt Ordering.lt = false
is_gt Ordering.eq = false
is_gt Ordering.gt = true

unfoldable pub total_file_size : List FileMetaData → ℕ
total_file_size [] = 0
total_file_size (f ∷ files) = (f.file_size + total_file_size files) % 2 ^ 64

-- `&f.smallest[..f.smallest.len() - 8]`, and the same of `largest`.
abbrev pub start_of : FileMetaData → Option Bytes
start_of f = extract_user_key f.smallest

abbrev pub limit_of : FileMetaData → Option Bytes
limit_of f = extract_user_key f.largest

-- How a pass over the files of a level ends: at their end, or where the range has grown.
pub data Pass : Type 0 where
  finished : List FileMetaData → Pass
  restarted : Option Bytes → Option Bytes → Pass

unfoldable pub is_nonempty : List FileMetaData → Bool
is_nonempty [] = false
is_nonempty (f ∷ files) = true

module _ (user : Comparator) where
  -- The `while` loop of the binary search, for at most so many rounds.
  unfoldable pub find_loop : ℕ → List FileMetaData → Bytes → ℕ → ℕ → Option ℕ
  find_loop zero files key left right = some left
  find_loop (suc rounds) files key left right =
      let mid = left + (right - left) / 2 in
      let upper = find_loop rounds files key (mid + 1) right in
      let lower = find_loop rounds files key left mid in
      let step =
        (get_elem? files mid >>= λ f. internal_compare user f.largest key >>= λ o. elim (is_lt o) [
          | true ↦ upper
          | false ↦ lower
        ]) in
      if ltb left right then step else some left

  -- The range falls with each round, so there are no more than there are files.
  unfoldable pub find_file : List FileMetaData → Bytes → Option ℕ
  find_file files key = find_loop (length files) files key 0 (length files)

  -- The tests that skip a file outside the range.
  unfoldable pub before_range : Bytes → Option Bytes → Bool
  before_range limit none = false
  before_range limit (some begin) = is_lt (user.compare limit begin)

  unfoldable pub after_range : Bytes → Option Bytes → Bool
  after_range start none = false
  after_range start (some end) = is_gt (user.compare start end)

  -- The range, widened to a file of level 0, and whether that asks for a new scan.
  unfoldable pub widen_begin : Bytes → Option Bytes → Option Bytes × Bool
  widen_begin start none = (some start, false)
  widen_begin start (some begin) =
      if is_lt (user.compare start begin) then (some start, true) else (some begin, false)

  unfoldable pub widen_end : Bytes → Option Bytes → Option Bytes × Bool
  widen_end limit none = (some limit, false)
  widen_end limit (some end) =
      if is_gt (user.compare limit end) then (some limit, true) else (some end, false)

  -- The body of the loop for the files that are left, up to its end or the next restart.
  unfoldable pub scan :
      Bool → List FileMetaData → List FileMetaData → Option Bytes → Option Bytes → Option Pass
  scan first_level [] result begin end = some (finished result)
  scan first_level (f ∷ rest) result begin end = start_of f >>= λ start. limit_of f >>= λ limit.
      let wider = widen_begin start begin in
      let longer = widen_end limit end in
      let skipped = scan first_level rest result begin end in
      let taken = scan first_level rest (result ++ f ∷ []) begin end in
      let grown = scan first_level rest (result ++ f ∷ []) wider.0 longer.0 in
      if before_range limit begin || after_range start end
      then skipped
      else if first_level
      then (if wider.1 || longer.1 then some (restarted wider.0 longer.0) else grown)
      else taken

  -- The scan and its restarts, at most so many of them.
  unfoldable pub rescan :
      ℕ → Bool → List FileMetaData → Option Bytes → Option Bytes → Option (List FileMetaData)
  rescan zero first_level files begin end = none
  rescan (suc rounds) first_level files begin end = scan first_level files [] begin end >>= λ pass.
      elim pass [
        | finished result ↦ some result
        | restarted begin' end' ↦ rescan rounds first_level files begin' end'
      ]

  -- A restart makes a file's key an end of the range, so there are at most two for each file.
  unfoldable pub overlapping :
      Bool → List FileMetaData → Option Bytes → Option Bytes → Option (List FileMetaData)
  overlapping first_level files begin end =
      rescan (suc (length files + length files)) first_level files begin end

  unfoldable pub get_overlapping_inputs :
      List (List FileMetaData) → ℕ → Option Bytes → Option Bytes → Option (List FileMetaData)
  get_overlapping_inputs files level begin end =
      get_elem? files level >>= λ level_files. overlapping (level == 0) level_files begin end

  unfoldable pub overlap_in_level :
      List (List FileMetaData) → ℕ → Option Bytes → Option Bytes → Option Bool
  overlap_in_level files level begin end =
      get_overlapping_inputs files level begin end >>= λ inputs. some (is_nonempty inputs)

  -- Whether the files two levels down that overlap the range are too much data.
  unfoldable pub too_much_grandparent : List (List FileMetaData) → ℕ → Bytes → Bytes → Option Bool
  too_much_grandparent files level smallest largest =
      let heavy =
        (get_overlapping_inputs files (level + 2) (some smallest) (some largest) >>= λ overlaps.
        some (ltb max_grandparent_overlap_bytes (total_file_size overlaps))) in
      if ltb (level + 2) num_levels then heavy else some false

  -- The `while` loop of `pick_level_for_memtable_output`, for the levels that are left.
  unfoldable pub push_down : ℕ → List (List FileMetaData) → ℕ → Bytes → Bytes → Option ℕ
  push_down zero files level smallest largest = some level
  push_down (suc left) files level smallest largest =
      let deeper = push_down left files (level + 1) smallest largest in
      let below =
        (too_much_grandparent files level smallest largest >>= λ heavy.
        if heavy then some level else deeper) in
      overlap_in_level files (level + 1) (some smallest) (some largest) >>= λ overlaps.
      if overlaps then some level else below

  unfoldable pub pick_level_for_memtable_output :
      List (List FileMetaData) → Bytes → Bytes → Option ℕ
  pick_level_for_memtable_output files smallest largest =
      overlap_in_level files 0 (some smallest) (some largest) >>= λ overlaps.
      if overlaps then some 0 else push_down max_mem_compact_level files 0 smallest largest
