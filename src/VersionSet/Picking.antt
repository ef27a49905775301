-- ===== src/VersionSet/Picking.antt =====
-- src/version_set/version_set.rs: `pick_compaction`, whose first choice is the file that seeks have
-- marked, and the seek allowances of the version that a builder makes. `none` is a panic. The score is a
-- floating-point number, so whether it lies below 1.0 is an argument.
use pulsearc_db.Base.{
  ℕ, zero, suc, ◌+◌, Bool, Bytes, List, [], ◌∷◌, Option, none, some, get_elem?, ltb, ◌==◌,
  if◌then◌else◌,
}
use pulsearc_db.Base.Options.{◌>>=◌}
use pulsearc_db.Comparator.{Comparator}
use pulsearc_db.Format.{num_levels}
use pulsearc_db.VersionSet.FileMetaData.{FileMetaData}
use pulsearc_db.VersionSet.Builder.{VersionBuilder, contains}
use pulsearc_db.VersionSet.Compaction.{Compaction, closed_inputs, setup_other_inputs, pick_by_size}
use pulsearc_db.VersionSet.Seeks.{
  Seeks, no_seeks, allowance, put_allowance, init_seek_allowance, take_file_to_compact,
}

-- `iter().find` by the number.
unfoldable pub find_number : ℕ → List FileMetaData → Option FileMetaData
find_number number [] = none
find_number number (f ∷ files) = if f.number == number then some f else find_number number files

-- A compaction that was picked, and the pointers of the levels behind it.
abbrev pub Picked : Type 0
Picked = Option (Compaction × List Bytes)

module _ (user : Comparator) where
  -- The compaction of the marked file, if it is still there and not in the last level.
  unfoldable pub pick_by_seek :
      List (List FileMetaData) → List Bytes → Option (ℕ × ℕ) → Option Picked
  pick_by_seek files compact_pointer none = some none
  pick_by_seek files compact_pointer (some (level, number)) =
      let picked : Option Picked =
        (get_elem? files level >>= λ level_files.
        let planned : FileMetaData → Option Picked = (λ f.
          closed_inputs user files level (f ∷ []) >>= λ input0.
          setup_other_inputs user files compact_pointer level input0 >>= λ c. some (some c)) in
        elim (find_number number level_files) [ none ↦ some none | some f ↦ planned f ]) in
      if ltb (level + 1) num_levels then picked else some none

  unfoldable pub pick_compaction :
      List (List FileMetaData) → List Bytes → Bool → ℕ → Seeks → Option (Seeks × Picked)
  pick_compaction files compact_pointer score_below_one level seeks =
      let rest = (take_file_to_compact seeks).0 in
      let by_size : Option (Seeks × Picked) =
        (pick_by_size user files compact_pointer level >>= λ c. some (rest, some c)) in
      pick_by_seek files compact_pointer (take_file_to_compact seeks).1 >>= λ picked. elim picked [
        | some c ↦ some (rest, some c)
        | none ↦ if score_below_one then some (rest, none) else by_size
      ]

-- The allowances of the files that survive are kept.
unfoldable pub carry_files : List ℕ → List (ℕ × ℕ) → List FileMetaData → Seeks → Seeks
carry_files deleted base_stats [] s = s
carry_files deleted base_stats (f ∷ files) s =
    let kept : Seeks = elim (allowance f.number base_stats) [
      | none ↦ s
      | some allowed ↦ record s { seek_stats = put_allowance f.number allowed s.seek_stats }
    ] in
    carry_files deleted base_stats files (if contains f.number deleted then s else kept)

unfoldable pub carry_levels : ℕ → ℕ → VersionBuilder → List (ℕ × ℕ) → Seeks → Option Seeks
carry_levels zero level builder base_stats s = some s
carry_levels (suc left) level builder base_stats s = get_elem? builder.base level >>= λ files.
    get_elem? builder.deleted_files level >>= λ deleted.
    carry_levels left (level + 1) builder base_stats (carry_files deleted base_stats files s)

-- Those of the files that are added are new.
unfoldable pub init_files : List ℕ → List FileMetaData → Seeks → Seeks
init_files deleted [] s = s
init_files deleted (f ∷ files) s =
    init_files deleted files
      (if contains f.number deleted then s else init_seek_allowance f.number f.file_size s)

unfoldable pub init_levels : ℕ → ℕ → VersionBuilder → Seeks → Option Seeks
init_levels zero level builder s = some s
init_levels (suc left) level builder s = get_elem? builder.added_files level >>= λ files.
    get_elem? builder.deleted_files level >>= λ deleted.
    init_levels left (level + 1) builder (init_files deleted files s)

unfoldable pub save_seeks : VersionBuilder → Seeks → Option Seeks
save_seeks builder base_seeks =
    carry_levels num_levels 0 builder base_seeks.seek_stats no_seeks >>= λ s.
    init_levels num_levels 0 builder s
