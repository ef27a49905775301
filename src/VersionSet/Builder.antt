-- ===== src/VersionSet/Builder.antt =====
-- src/version_set/version_set.rs: `VersionBuilder`, which applies edits to a version's files. `none` is
-- a level out of range, or a comparison of a key that is too short. A `BTreeSet` is a list, of which
-- only membership counts. The allowances of the version that is
-- made stand in Picking, and its score is a floating-point number, which is left out.
pub mod Deleted
pub mod Applied
pub mod Saved
use Prim.Native.Nat.{compare, Ordering}
use pulsearc_db.Base.{
  ℕ, zero, suc, ◌+◌, ◌/◌, Bool, true, false, Bytes, List, [], ◌∷◌, ◌++◌, Option, none, some,
  get_elem?, set, replicate, ltb, ◌==◌, ◌||◌, not, if◌then◌else◌,
}
use pulsearc_db.Base.Options.{◌>>=◌}
use pulsearc_db.Base.Sort.{sort_by}
use pulsearc_db.Comparator.{Comparator}
use pulsearc_db.Format.{num_levels, internal_compare}
use pulsearc_db.VersionSet.FileMetaData.{FileMetaData}
use pulsearc_db.VersionSet.VersionEdit.{VersionEdit, DeletedFile, NewFile}

pub record VersionBuilder : Type 0 where
  pub base : List (List FileMetaData)
  pub deleted_files : List (List ℕ)
  pub added_files : List (List FileMetaData)

unfoldable pub new_builder : List (List FileMetaData) → VersionBuilder
new_builder base = record {
  base = base;
  deleted_files = replicate num_levels [];
  added_files = replicate num_levels [];
}

-- A set of file numbers.
unfoldable pub contains : ℕ → List ℕ → Bool
contains n [] = false
contains n (m ∷ numbers) = m == n || contains n numbers

unfoldable pub remove_number : ℕ → List ℕ → List ℕ
remove_number n [] = []
remove_number n (m ∷ numbers) =
    if m == n then remove_number n numbers else m ∷ remove_number n numbers

-- `levels[level]`, changed.
unfoldable pub at_level {ℓ} : {A : Type ℓ} → ℕ → (A → A) → List A → Option (List A)
at_level level change levels =
    get_elem? levels level >>= λ old. some (set levels level (change old))

-- The two loops of `apply`.
unfoldable pub apply_deleted : List DeletedFile → VersionBuilder → Option VersionBuilder
apply_deleted [] builder = some builder
apply_deleted (d ∷ ds) builder =
    at_level d.level (λ numbers. d.number ∷ numbers) builder.deleted_files >>= λ deleted.
    apply_deleted ds (record builder { deleted_files = deleted })

unfoldable pub apply_new : List NewFile → VersionBuilder → Option VersionBuilder
apply_new [] builder = some builder
apply_new (nf ∷ nfs) builder =
    at_level nf.level (remove_number (nf.meta).number) builder.deleted_files >>= λ deleted.
    at_level nf.level (λ files. files ++ nf.meta ∷ []) builder.added_files >>= λ added.
    apply_new nfs (record builder { deleted_files = deleted; added_files = added })

unfoldable pub apply : VersionEdit → VersionBuilder → Option VersionBuilder
apply edit builder = apply_deleted edit.deleted_files builder >>= λ b. apply_new edit.new_files b

-- The files whose number is not among those that are deleted.
unfoldable pub surviving : List ℕ → List FileMetaData → List FileMetaData
surviving deleted [] = []
surviving deleted (f ∷ files) =
    if contains f.number deleted then surviving deleted files else f ∷ surviving deleted files

unfoldable pub by_number : FileMetaData → FileMetaData → Option Ordering
by_number a b = some (compare a.number b.number)

module _ (user : Comparator) where
  unfoldable pub by_smallest : FileMetaData → FileMetaData → Option Ordering
  by_smallest a b = internal_compare user a.smallest b.smallest

  -- The body of the loop of `save_to`.
  unfoldable pub save_level : ℕ → VersionBuilder → Option (List FileMetaData)
  save_level level builder = get_elem? builder.base level >>= λ base.
      get_elem? builder.deleted_files level >>= λ deleted.
      get_elem? builder.added_files level >>= λ added.
      let files = surviving deleted base ++ surviving deleted added in
      if level == 0 then sort_by by_number files else sort_by by_smallest files

  -- The levels from the given one on.
  unfoldable pub save_levels : ℕ → ℕ → VersionBuilder → Option (List (List FileMetaData))
  save_levels zero level builder = some []
  save_levels (suc left) level builder = save_level level builder >>= λ files.
      save_levels left (level + 1) builder >>= λ rest. some (files ∷ rest)

  unfoldable pub save_to : VersionBuilder → Option (List (List FileMetaData))
  save_to builder = save_levels num_levels 0 builder
