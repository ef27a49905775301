-- ===== src/VersionSet/Seeks.antt =====
-- src/version_set/version_set.rs: the seek allowances of a version's files, and the sampling of reads.
-- The state sits behind locks, and an operation takes it and returns the new one. An i64 is kept as the
-- number of its two's complement. `none` is a panic.
use pulsearc_db.Base.{
  ℕ, zero, suc, ◌+◌, ◌-◌, ◌/◌, ◌%◌, ◌^◌, Bool, true, false, Bytes, List, [], ◌∷◌, Option, none,
  some, length, get_elem?, ltb, leb, ◌==◌, ◌||◌, if◌then◌else◌,
}
use pulsearc_db.Base.Options.{◌>>=◌}
use pulsearc_db.Comparator.{Comparator}
use pulsearc_db.Format.{num_levels, extract_user_key}
use pulsearc_db.VersionSet.FileMetaData.{FileMetaData}
use pulsearc_db.VersionSet.Version.{find_file, start_of, is_lt}
use pulsearc_db.VersionSet.Compaction.{covers}

abbrev pub read_bytes_period : ℕ
read_bytes_period = 1048576

pub record Seeks : Type 0 where
  pub seek_stats : List (ℕ × ℕ)
  pub file_to_compact : Option (ℕ × ℕ)

unfoldable pub no_seeks : Seeks
no_seeks = record { seek_stats = []; file_to_compact = none }

-- The map's entry of a file.
unfoldable pub allowance : ℕ → List (ℕ × ℕ) → Option ℕ
allowance number [] = none
allowance number ((n, a) ∷ stats) = if n == number then some a else allowance number stats

unfoldable pub put_allowance : ℕ → ℕ → List (ℕ × ℕ) → List (ℕ × ℕ)
put_allowance number a [] = (number, a) ∷ []
put_allowance number a ((n, b) ∷ stats) =
    if n == number then (number, a) ∷ stats else (n, b) ∷ put_allowance number a stats

unfoldable pub at_least : ℕ → ℕ → ℕ
at_least low n = if ltb n low then low else n

-- A size from 2 ^ 63 on is a negative i64.
unfoldable pub init_seek_allowance : ℕ → ℕ → Seeks → Seeks
init_seek_allowance number file_size s =
    let allowed =
      if ltb file_size (2 ^ 63) then at_least 100 (file_size / read_bytes_period) else 100 in
    record s { seek_stats = put_allowance number allowed s.seek_stats }

unfoldable pub value_or : ℕ → Option ℕ → ℕ
value_or other none = other
value_or other (some n) = n

unfoldable pub mark : ℕ → ℕ → Seeks → Seeks × Bool
mark level number s = elim s.file_to_compact [
  | some due ↦ (s, false)
  | none ↦ (record s { file_to_compact = some (level, number) }, true)
]

unfoldable pub decrement_seek_allowance : ℕ → ℕ → Seeks → Seeks × Bool
decrement_seek_allowance level number s =
    let entry = (value_or 0 (allowance number s.seek_stats) + (2 ^ 64 - 1)) % 2 ^ 64 in
    let counted = record s { seek_stats = put_allowance number entry s.seek_stats } in
    if entry == 0 || leb (2 ^ 63) entry then mark level number counted else (counted, false)

unfoldable pub take_file_to_compact : Seeks → Seeks × Option (ℕ × ℕ)
take_file_to_compact s = (record s { file_to_compact = none }, s.file_to_compact)

unfoldable pub has_file_to_compact : Seeks → Bool
has_file_to_compact s = elim s.file_to_compact [ none ↦ false | some due ↦ true ]

-- The first match, of which the earlier one counts.
unfoldable pub first_match : Option (ℕ × ℕ) → ℕ → ℕ → Option (ℕ × ℕ)
first_match none level number = some (level, number)
first_match (some found) level number = some found

module _ (user : Comparator) where
  -- The one file of a level below 0 that may hold the key: the body of the loops over the levels.
  unfoldable pub candidate : Bytes → Bytes → List FileMetaData → Option (Option FileMetaData)
  candidate user_key internal_key [] = some none
  candidate user_key internal_key (g ∷ files) = find_file user (g ∷ files) internal_key >>= λ idx.
      let found =
        (get_elem? (g ∷ files) idx >>= λ f. start_of f >>= λ smallest.
        some (if is_lt (user.compare user_key smallest) then none else some f)) in
      if leb (length (g ∷ files)) idx then some none else found

  -- The loops of `record_read_sample`, which end at the second match.
  unfoldable pub sample_first :
      Bytes → List FileMetaData → Option (ℕ × ℕ) → ℕ → Option (Option (ℕ × ℕ) × ℕ)
  sample_first key [] first count = some (first, count)
  sample_first key (f ∷ files) first count =
      let matched = first_match first 0 f.number in
      let more = sample_first key files matched (count + 1) in
      let skipped = sample_first key files first count in
      covers user key f >>= λ hit.
      if hit then (if leb 2 (count + 1) then some (matched, count + 1) else more) else skipped

  unfoldable pub sample_deeper :
      ℕ
      → ℕ
      → Bytes
      → Bytes
      → List (List FileMetaData)
      → Option (ℕ × ℕ)
      → ℕ
      → Option (Option (ℕ × ℕ) × ℕ)
  sample_deeper zero level key internal_key files first count = some (first, count)
  sample_deeper (suc left) level key internal_key files first count =
      let deeper = sample_deeper left (level + 1) key internal_key files in
      get_elem? files level >>= λ level_files. candidate key internal_key level_files >>= λ c.
      elim c [
        | none ↦ deeper first count
        | some f ↦
            let matched = first_match first level f.number in
            if leb 2 (count + 1) then some (matched, count + 1) else deeper matched (count + 1)
      ]

  -- Both loops, the second of which runs unless the first has two matches.
  unfoldable pub sample : Bytes → Bytes → List (List FileMetaData) → Option (Option (ℕ × ℕ) × ℕ)
  sample key internal_key files = get_elem? files 0 >>= λ level0.
      sample_first key level0 none 0 >>= λ (first, count).
      let deeper = sample_deeper (num_levels - 1) 1 key internal_key files first count in
      if ltb count 2 then deeper else some (first, count)

  unfoldable pub record_read_sample :
      List (List FileMetaData) → Bytes → Seeks → Option (Seeks × Bool)
  record_read_sample files internal_key s =
      let sampled =
        (extract_user_key internal_key >>= λ key.
        sample key internal_key files >>= λ (first, count).
        let charged =
          (first >>= λ (level, number). some (decrement_seek_allowance level number s)) in
        if ltb count 2 then some (s, false) else charged) in
      if ltb (length internal_key) 8 then some (s, false) else sampled
