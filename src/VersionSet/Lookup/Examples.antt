-- ===== src/VersionSet/Lookup/Examples.antt =====
-- src/version_set/version_set.rs: a lookup of `b` in two files of level 0 that both cover it.
use pulsearc_db.Base.{
  ℕ, Bytes, List, [], ◌∷◌, none, some, ◌≡◌, refl, inl, inr, arith, replicate, true, if◌then◌else◌,
  ◌==◌,
}
use pulsearc_db.Result.{Result, ok, err}
use pulsearc_db.Status.{corruption, text}
use pulsearc_db.Comparator.{bytewise, compare_bytes}
use pulsearc_db.Format.{extract_user_key}
use pulsearc_db.VersionSet.FileMetaData.{FileMetaData}
use pulsearc_db.VersionSet.Version.Overlap.{HasKeys}
use pulsearc_db.VersionSet.Compaction.{covers}
use pulsearc_db.VersionSet.Seeks.{no_seeks}
use pulsearc_db.VersionSet.Lookup.{LookupResult, found, not_found, deleted, get}
use pulsearc_db.VersionSet.Lookup.Charge.{AtMostOne, get-AtMostOne}
use pulsearc_db.VersionSet.Lookup.Newest.{get-newest}

abbrev key_of : ℕ → Bytes
key_of letter = letter ∷ 1 ∷ 1 ∷ 0 ∷ 0 ∷ 0 ∷ 0 ∷ 0 ∷ 0 ∷ []

abbrev a_to_c : ℕ → FileMetaData
a_to_c number = record {
  number = number;
  file_size = 100;
  smallest = key_of 97;
  largest = key_of 99;
}

abbrev tree : List (List FileMetaData)
tree = (a_to_c 5 ∷ a_to_c 8 ∷ a_to_c 7 ∷ []) ∷ replicate 6 []

-- File 8 has not the key, file 7 deletes it, and file 5 still has a value.
abbrev read_file : ℕ → Bytes → Result LookupResult
read_file number key =
    if number == 8
    then ok not_found
    else if number == 7
    then ok deleted
    else if number == 5
    then ok (found (1 ∷ []))
    else err (corruption (text "missing"))

a_to_c-HasKeys : (number : ℕ) → HasKeys (a_to_c number)
unfolding extract_user_key
a_to_c-HasKeys number = record {
  start = 97 ∷ [];
  limit = 99 ∷ [];
  at_start = refl;
  at_limit = refl;
}

covers_b : (number : ℕ) → covers bytewise (98 ∷ []) (a_to_c number) ≡ some true
unfolding covers extract_user_key compare_bytes
covers_b number = refl

get-newest_example : (get bytewise read_file tree (98 ∷ []) (key_of 98) no_seeks).1 ≡ ok none
get-newest_example =
    get-newest bytewise read_file (98 ∷ []) (key_of 98) 7 tree (a_to_c 5 ∷ a_to_c 8 ∷ a_to_c 7 ∷ [])
      no_seeks deleted none refl (a_to_c-HasKeys 5, (a_to_c-HasKeys 8, (a_to_c-HasKeys 7, tt)))
      (inr (inr (inl (refl, covers_b 7))))
      ((λ _ h. absurd (omega arith)), ((λ _ _. refl), ((λ _ h. absurd (omega arith)), tt))) refl
      refl

get-AtMostOne_example :
    AtMostOne no_seeks (get bytewise read_file tree (98 ∷ []) (key_of 98) no_seeks).0
get-AtMostOne_example = get-AtMostOne no_seeks bytewise read_file (98 ∷ []) (key_of 98) tree
