-- ===== src/VersionSet/FilesExamples.antt =====
-- src/version_set/version_set.rs on two files, with the keys `a` to `c` and `d` to `f`.
use Prim.Native.Nat.{Ordering}
use mathlib.Core.List.{Perm}
use pulsearc_db.Base.{
  ℕ, zero, suc, ◌<◌, Bytes, List, [], ◌∷◌, ◌++◌, none, some, ◌≡◌, refl, arith, get_elem?, All, true,
  false, ap, ◌↔◌, sym, ◌∙◌,
}
use pulsearc_db.Comparator.{bytewise, compare_bytes, Comparator}
use pulsearc_db.Comparator.Order.{bytewise-IsTotalOrder}
use pulsearc_db.Coding.{to_le_bytes, decode_fixed64, from_le_bytes}
use pulsearc_db.Format.{
  ParsedInternalKey, value, internal_compare, extract_user_key, type_tag, required_user_key,
  required_tag,
}
use pulsearc_db.Format.Keys.{IsSequence, key_bytes}
use pulsearc_db.Format.KeyOrder.{encoded}
use pulsearc_db.VersionSet.FileMetaData.{FileMetaData}
use pulsearc_db.VersionSet.VersionEdit.{VersionEdit, empty}
use pulsearc_db.VersionSet.Version.{find_file, overlapping}
use pulsearc_db.VersionSet.Version.FindFile.{IsSortedLevel, Splits, find_file-Splits}
use pulsearc_db.VersionSet.Version.Overlap.{HasKeys, select, Meets, Picks, overlapping_below}
use pulsearc_db.VersionSet.Version.Overlap.Restarts.{IsClosed, overlapping_first}
use pulsearc_db.VersionSet.Version.Overlap.OpenRange.{overlapping_open}
use pulsearc_db.VersionSet.Builder.Saved.{kept, IsOrderedLevel, save_level-apply}
use pulsearc_db.VersionSet.Builder.{VersionBuilder, apply, new_builder, save_level, contains}
use pulsearc_db.VersionSet.Compaction.{
  get_user_range, Compaction, is_base_level_for_key, covers, none_below, none_covers,
}
use pulsearc_db.VersionSet.Builder.Deleted.{new_at, deleted_at, has_number}
use pulsearc_db.VersionSet.Compaction.UserRange.{InRange, get_user_range-InRange}
use pulsearc_db.VersionSet.Compaction.BaseLevel.{OutsideBelow, is_base_level_for_key_lem}

-- The key of one letter, its first version.
abbrev key : ℕ → ParsedInternalKey
key letter = record { user_key = letter ∷ []; sequence = 1; value_type = value }

abbrev key_of : ℕ → Bytes
key_of letter = letter ∷ 1 ∷ 1 ∷ 0 ∷ 0 ∷ 0 ∷ 0 ∷ 0 ∷ 0 ∷ []

key_of_lem : (letter : ℕ) → key_of letter ≡ encoded (key letter)
unfolding key_bytes to_le_bytes type_tag
key_of_lem letter = refl

abbrev file : ℕ → ℕ → ℕ → FileMetaData
file number first last = record {
  number = number;
  file_size = 100;
  smallest = key_of first;
  largest = key_of last;
}

abbrev a_to_c : FileMetaData
a_to_c = file 5 97 99

abbrev d_to_f : FileMetaData
d_to_f = file 6 100 102

abbrev level : List FileMetaData
level = a_to_c ∷ d_to_f ∷ []

abbrev keys_of : (number first last : ℕ) → HasKeys (file number first last)
unfolding extract_user_key
keys_of number first last = record {
  start = first ∷ [];
  limit = last ∷ [];
  at_start = refl;
  at_limit = refl;
}

level-IsSortedLevel : IsSortedLevel bytewise level
level-IsSortedLevel = record { keyed = keyed; sorted = sorted }
  where
    keyed :
        (i : ℕ) (f : FileMetaData)
        → get_elem? level i ≡ some f
        → (k : ParsedInternalKey) × (f.largest ≡ encoded k) × IsSequence k.sequence
    keyed zero f at =
        let same : a_to_c ≡ f = cc in
        (key 99, ap (λ (g : FileMetaData). g.largest) (sym same) ∙ key_of_lem 99, omega arith)
    keyed (suc zero) f at =
        let same : d_to_f ≡ f = cc in
        (key 102, ap (λ (g : FileMetaData). g.largest) (sym same) ∙ key_of_lem 102, omega arith)
    keyed (suc (suc i)) f at = cc

    ascends : internal_compare bytewise (key_of 99) (key_of 102) ≡ some Ordering.lt
    ascends =
        unfold internal_compare compare_bytes required_user_key extract_user_key required_tag
          decode_fixed64 from_le_bytes in
        refl

    sorted :
        (i j : ℕ) (f g : FileMetaData)
        → i < j
        → get_elem? level i ≡ some f
        → get_elem? level j ≡ some g
        → internal_compare bytewise f.largest g.largest ≡ some Ordering.lt
    sorted zero zero f g lt at at' = absurd (omega arith)
    sorted zero (suc zero) f g lt at at' =
        let same : a_to_c ≡ f = cc in let same' : d_to_f ≡ g = cc in rw (← same, ← same') ascends
    sorted zero (suc (suc j)) f g lt at at' = cc
    sorted (suc zero) zero f g lt at at' = absurd (omega arith)
    sorted (suc zero) (suc zero) f g lt at at' = absurd (omega arith)
    sorted (suc zero) (suc (suc j)) f g lt at at' = cc
    sorted (suc (suc i)) j f g lt at at' = cc

find_file-Splits_example :
    (index : ℕ) × (find_file bytewise level (encoded (key 101)) ≡ some index)
    × Splits bytewise level (encoded (key 101)) index
find_file-Splits_example =
    find_file-Splits bytewise bytewise-IsTotalOrder level level-IsSortedLevel (key 101)
      (omega arith)

level-HasKeys : All HasKeys level
level-HasKeys = (keys_of 5 97 99, (keys_of 6 100 102, tt))

overlapping_below_example :
    (r : List FileMetaData) × (overlapping bytewise false level none (some (98 ∷ [])) ≡ some r)
    × Picks (Meets bytewise none (some (98 ∷ []))) level r
overlapping_below_example = overlapping_below bytewise level none (some (98 ∷ [])) level-HasKeys

overlapping_first_example :
    (r : List FileMetaData) × (overlapping bytewise true level (some (98 ∷ [])) (some (98 ∷ []))
      ≡ some r)
    × IsClosed bytewise bytewise-IsTotalOrder (98 ∷ []) (98 ∷ []) level r
overlapping_first_example =
    overlapping_first bytewise bytewise-IsTotalOrder level (98 ∷ []) (98 ∷ []) level-HasKeys

overlapping_open_example :
    (overlapping bytewise true (d_to_f ∷ a_to_c ∷ []) none none ≡ some (d_to_f ∷ []))
    × (select bytewise none none (d_to_f ∷ a_to_c ∷ []) ≡ d_to_f ∷ a_to_c ∷ [])
unfolding extract_user_key
overlapping_open_example =
    overlapping_open bytewise d_to_f a_to_c (keys_of 6 100 102) (keys_of 5 97 99) front
  where
    front : compare_bytes (99 ∷ []) (100 ∷ []) ≡ Ordering.lt
    front = unfold compare_bytes in refl

abbrev edit : VersionEdit
edit = record empty {
  deleted_files = record { level = 1; number = 5 } ∷ [];
  new_files = record { level = 1; meta = file 7 97 98 } ∷ [];
}

kept_lem : kept 1 edit level ++ new_at 1 edit.new_files ≡ d_to_f ∷ file 7 97 98 ∷ []
unfolding kept new_at deleted_at has_number contains
kept_lem = refl

save_level-apply_example :
    (b : VersionBuilder) × (r : List FileMetaData) × (apply edit (new_builder ([] ∷ level ∷ []))
      ≡ some b)
    × (save_level bytewise 1 b ≡ some r)
    × Perm r (kept 1 edit level ++ new_at 1 edit.new_files)
    × IsOrderedLevel bytewise bytewise-IsTotalOrder 1 r
save_level-apply_example =
    save_level-apply bytewise bytewise-IsTotalOrder edit ([] ∷ level ∷ []) 1 level (omega arith, tt)
      (omega arith, tt) (omega arith) refl
      (rw kept_lem
        ((key 100, key_of_lem 100, omega arith), ((key 97, key_of_lem 97, omega arith), tt)))

get_user_range-InRange_example :
    (range : Bytes × Bytes) × (get_user_range level ≡ some range)
    × All (InRange range.0 range.1) level
get_user_range-InRange_example = get_user_range-InRange a_to_c (d_to_f ∷ []) level-HasKeys

-- The order of bytes, turned around.
abbrev reversed : Comparator
reversed = record {
  compare = λ a b. compare_bytes b a;
  find_shortest_separator = λ a b. a;
  find_short_successor = λ a. a;
}

abbrev planned : Compaction
planned = record {
  level = 0;
  inputs0 = [];
  inputs1 = [];
  grandparents = [];
  input_version = [] ∷ [] ∷ level ∷ [] ∷ [] ∷ [] ∷ [] ∷ [];
  compact_pointers = [];
}

planned_base : is_base_level_for_key bytewise planned (103 ∷ []) ≡ some true
unfolding is_base_level_for_key none_below none_covers covers extract_user_key compare_bytes
planned_base = refl

is_base_level_for_key_lem_example :
    (is_base_level_for_key bytewise planned (103 ∷ []) ≡ some true)
    ↔ OutsideBelow bytewise (103 ∷ []) 5 2 planned.input_version
is_base_level_for_key_lem_example =
    is_base_level_for_key_lem bytewise (103 ∷ []) planned refl (omega arith)
