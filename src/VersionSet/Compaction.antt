-- ===== src/VersionSet/Compaction.antt =====
-- src/version_set/version_set.rs: a planned compaction, its input files and how they are picked. `none`
-- is a panic: an empty set of files, a level or a key out of range.
pub mod UserRange
pub mod BaseLevel
use Prim.Native.Nat.{Ordering}
use pulsearc_db.Base.{
  ℕ, zero, suc, ◌+◌, ◌-◌, ◌*◌, Bool, true, false, Bytes, List, [], ◌∷◌, ◌++◌, Option, none, some,
  length, get_elem?, set, ltb, leb, ◌==◌, ◌&&◌, ◌||◌, not, if◌then◌else◌, ◌%◌, ◌^◌,
}
use pulsearc_db.Base.Options.{◌>>=◌}
use pulsearc_db.Comparator.{Comparator, compare_bytes}
use pulsearc_db.Format.{num_levels, internal_compare}
use pulsearc_db.VersionSet.FileMetaData.{FileMetaData}
use pulsearc_db.VersionSet.VersionEdit.{CompactPointer}
use pulsearc_db.VersionSet.Version.{
  total_file_size, start_of, limit_of, is_lt, is_gt, get_overlapping_inputs, is_nonempty,
  target_file_size, max_grandparent_overlap_bytes,
}

-- The version is the files that it holds; of the edit, the compaction fills the pointers alone.
pub record Compaction : Type 0 where
  pub level : ℕ
  pub inputs0 : List FileMetaData
  pub inputs1 : List FileMetaData
  pub grandparents : List FileMetaData
  pub input_version : List (List FileMetaData)
  pub compact_pointers : List CompactPointer

-- The loop of `get_user_range`; `<` and `>` on slices compare bytes.
unfoldable pub range_loop : List FileMetaData → Bytes → Bytes → Option (Bytes × Bytes)
range_loop [] smallest largest = some (smallest, largest)
range_loop (f ∷ files) smallest largest = start_of f >>= λ s. limit_of f >>= λ l.
    range_loop files (if is_lt (compare_bytes s smallest) then s else smallest)
      (if is_gt (compare_bytes l largest) then l else largest)

unfoldable pub get_user_range : List FileMetaData → Option (Bytes × Bytes)
get_user_range [] = none
get_user_range (f ∷ files) = start_of f >>= λ s. limit_of f >>= λ l. range_loop files s l

unfoldable pub get_user_range_pair : List FileMetaData → List FileMetaData → Option (Bytes × Bytes)
get_user_range_pair [] b = get_user_range b
get_user_range_pair (f ∷ a) [] = get_user_range (f ∷ a)
get_user_range_pair (f ∷ a) (g ∷ b) = get_user_range (f ∷ a) >>= λ (a_lo, a_hi).
    get_user_range (g ∷ b) >>= λ (b_lo, b_hi). some (
      if is_gt (compare_bytes a_lo b_lo) then b_lo else a_lo,
      if is_lt (compare_bytes a_hi b_hi) then b_hi else a_hi,
    )

module _ (user : Comparator) where
  unfoldable pub largest_loop : List FileMetaData → Bytes → Option Bytes
  largest_loop [] best = some best
  largest_loop (f ∷ files) best = internal_compare user f.largest best >>= λ o.
      largest_loop files (if is_gt o then f.largest else best)

  unfoldable pub largest_internal_key : List FileMetaData → Option Bytes
  largest_internal_key [] = none
  largest_internal_key (f ∷ files) = largest_loop files f.largest

  -- The inputs after the attempt to grow the first without growing the second, and the whole range.
  unfoldable pub grown :
      List (List FileMetaData)
      → ℕ
      → List FileMetaData
      → List FileMetaData
      → Bytes × Bytes
      → Option (List FileMetaData × List FileMetaData × (Bytes × Bytes))
  grown files level inputs0 inputs1 (all_start, all_limit) =
      get_overlapping_inputs user files level (some all_start) (some all_limit) >>= λ expanded0.
      let retry =
        (get_user_range expanded0 >>= λ (new_start, new_limit).
        get_overlapping_inputs user files (level + 1) (some new_start) (some new_limit)
        >>= λ expanded1.
            let accept =
              (get_user_range_pair expanded0 expanded1 >>= λ range.
              some (expanded0, expanded1, range)) in
            if length expanded1 == length inputs1
            then accept
            else some (inputs0, inputs1, (all_start, all_limit))) in
      if ltb (length inputs0) (length expanded0)
        && ltb ((total_file_size inputs1 + total_file_size expanded0) % 2 ^ 64)
            (25 * target_file_size)
      then retry
      else some (inputs0, inputs1, (all_start, all_limit))

  unfoldable pub grandparents_of :
      List (List FileMetaData) → ℕ → Bytes × Bytes → Option (List FileMetaData)
  grandparents_of files level (all_start, all_limit) =
      let overlapping =
        get_overlapping_inputs user files (level + 2) (some all_start) (some all_limit) in
      if ltb (level + 2) num_levels then overlapping else some []

  -- The compaction of the given files of a level, and the pointers of the levels behind it.
  unfoldable pub setup_other_inputs :
      List (List FileMetaData)
      → List Bytes
      → ℕ
      → List FileMetaData
      → Option (Compaction × List Bytes)
  setup_other_inputs files compact_pointer level input0 =
      get_user_range input0 >>= λ (smallest, largest).
      get_overlapping_inputs user files (level + 1) (some smallest) (some largest) >>= λ input1.
      get_user_range_pair input0 input1 >>= λ whole.
      let bigger = grown files level input0 input1 whole in
      (if is_nonempty input1 then bigger else some (input0, input1, whole))
      >>= λ (inputs0, inputs1, range). grandparents_of files level range >>= λ grandparents.
          largest_internal_key inputs0 >>= λ largest_internal.
          get_elem? compact_pointer level >>= λ old. some (
            record {
              level = level;
              inputs0 = inputs0;
              inputs1 = inputs1;
              grandparents = grandparents;
              input_version = files;
              compact_pointers = record { level = level; key = largest_internal } ∷ [];
            },
            set compact_pointer level largest_internal,
          )

  -- The outer `none` is a panic, the inner one that there is nothing to do.
  unfoldable pub pick_manual_compaction :
      List (List FileMetaData)
      → List Bytes
      → ℕ
      → Option Bytes
      → Option Bytes
      → Option (Option (Compaction × List Bytes))
  pick_manual_compaction files compact_pointer level begin end =
      let picked =
        (get_overlapping_inputs user files level begin end >>= λ inputs.
        let planned =
          (setup_other_inputs files compact_pointer level inputs >>= λ c. some (some c)) in
        if is_nonempty inputs then planned else some none) in
      if leb num_levels (level + 1) then some none else picked

  -- The first file whose largest key lies behind the level's pointer.
  unfoldable pub first_after : Bytes → List FileMetaData → Option (List FileMetaData)
  first_after pointer [] = some []
  first_after [] (f ∷ files) = some (f ∷ [])
  first_after (b ∷ pointer) (f ∷ files) =
      let later = first_after (b ∷ pointer) files in
      internal_compare user f.largest (b ∷ pointer) >>= λ o.
      if is_gt o then some (f ∷ []) else later

  -- The inputs of level 0 take in what overlaps them.
  unfoldable pub closed_inputs :
      List (List FileMetaData) → ℕ → List FileMetaData → Option (List FileMetaData)
  closed_inputs files level input0 =
      let wider =
        (get_user_range input0 >>= λ (smallest, largest).
        get_overlapping_inputs user files 0 (some smallest) (some largest)) in
      if level == 0 then wider else some input0

  -- The compaction of a level that is due by its size.
  unfoldable pub pick_by_size :
      List (List FileMetaData) → List Bytes → ℕ → Option (Compaction × List Bytes)
  pick_by_size files compact_pointer level =
      let picked =
        (get_elem? compact_pointer level >>= λ pointer. get_elem? files level >>= λ level_files.
        first_after pointer level_files >>= λ input0.
        let first = (get_elem? level_files 0 >>= λ f. some (f ∷ [])) in
        (if is_nonempty input0 then some input0 else first) >>= λ input.
        closed_inputs files level input >>= λ inputs.
        setup_other_inputs files compact_pointer level inputs) in
      if ltb (level + 1) num_levels then picked else none

  -- The user key lies in the file's range.
  unfoldable pub covers : Bytes → FileMetaData → Option Bool
  covers key f = start_of f >>= λ smallest. limit_of f >>= λ largest.
      some (not (is_lt (user.compare key smallest)) && not (is_gt (user.compare key largest)))

  unfoldable pub none_covers : Bytes → List FileMetaData → Option Bool
  none_covers key [] = some true
  none_covers key (f ∷ files) =
      let later = none_covers key files in
      covers key f >>= λ covered. if covered then some false else later

  -- The levels from the given one on.
  unfoldable pub none_below : ℕ → ℕ → Bytes → List (List FileMetaData) → Option Bool
  none_below zero level key files = some true
  none_below (suc left) level key files =
      let deeper = none_below left (level + 1) key files in
      get_elem? files level >>= λ level_files.
      none_covers key level_files >>= λ free. if free then deeper else some false

  unfoldable pub is_base_level_for_key : Compaction → Bytes → Option Bool
  is_base_level_for_key c key =
      none_below (num_levels - (c.level + 2)) (c.level + 2) key c.input_version

unfoldable pub is_trivial_move : Compaction → Bool
is_trivial_move c =
    (length c.inputs0 == 1 && length c.inputs1 == 0)
    && leb (total_file_size c.grandparents) max_grandparent_overlap_bytes
