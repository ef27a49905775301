-- ===== src/VersionSet/Compaction/BaseLevel.antt =====
-- src/version_set/version_set.rs: `is_base_level_for_key`, on which the dropping of deletions relies.
use pulsearc_db.Base.{
  refl, length, All, ℕ, zero, suc, ◌+◌, ◌-◌, ◌≤◌, ◌<◌, true, false, Bytes, List, [], ◌∷◌, some, ◌≡◌,
  sym, ◌∙◌, ap, arith, inl, inr, Bool-cases, get_elem?, ltb, ltb→lt, ltb→le, ◌⊎◌, ◌↔◌, not, ◌&&◌,
}
use Prim.Native.Nat.{Ordering}
use pulsearc_db.VersionSet.Version.{start_of, limit_of, is_lt, is_gt}
use pulsearc_db.Base.Options.{>>=-eq-some}
use pulsearc_db.Comparator.{Comparator}
use pulsearc_db.Format.{num_levels}
use pulsearc_db.VersionSet.FileMetaData.{FileMetaData}
use pulsearc_db.VersionSet.Compaction.{
  Compaction, covers, none_covers, none_below, is_base_level_for_key,
}
use pulsearc_db.Base.Positions.{get_elem?-lt}

-- The key lies in front of the file's smallest user key, or behind its largest.
abbrev pub LiesOutside : Comparator → Bytes → FileMetaData → Type 0
LiesOutside user key f =
    (start : Bytes) × (limit : Bytes) × (start_of f ≡ some start)
    × (limit_of f ≡ some limit)
    × ((user.compare key start ≡ Ordering.lt) ⊎ (user.compare key limit ≡ Ordering.gt))

module _ (user : Comparator) (key : Bytes) where
  outside_cases :
      (o p : Ordering)
      → (not (is_lt o) && not (is_gt p)) ≡ false
      → (o ≡ Ordering.lt) ⊎ (p ≡ Ordering.gt)
  outside_cases Ordering.lt p h = inl refl
  outside_cases Ordering.eq Ordering.lt h = cc
  outside_cases Ordering.eq Ordering.eq h = cc
  outside_cases Ordering.eq Ordering.gt h = inr refl
  outside_cases Ordering.gt Ordering.lt h = cc
  outside_cases Ordering.gt Ordering.eq h = cc
  outside_cases Ordering.gt Ordering.gt h = inr refl

  covers-LiesOutside : (f : FileMetaData) → covers user key f ≡ some false → LiesOutside user key f
  unfolding covers
  covers-LiesOutside f h =
      let (start, at_start, next) = >>=-eq-some (start_of f) _ h in
      let (limit, at_limit, tests) = >>=-eq-some (limit_of f) _ next in
      (
        start,
        limit,
        at_start,
        at_limit,
        outside_cases (user.compare key start) (user.compare key limit) (ground (arith, tests)),
      )

  none_covers_cons :
      (g : FileMetaData) (files : List FileMetaData)
      → none_covers user key (g ∷ files) ≡ some true
      → (covers user key g ≡ some false) × (none_covers user key files ≡ some true)
  unfolding none_covers
  none_covers_cons g files h = ground arith

  none_covers_sound :
      (files : List FileMetaData)
      → none_covers user key files ≡ some true
      → All (LiesOutside user key) files
  none_covers_sound [] h = tt
  none_covers_sound (g ∷ files) h =
      let (first, later) = none_covers_cons g files h in
      (covers-LiesOutside g first, none_covers_sound files later)

  LiesOutside-covers : (f : FileMetaData) → LiesOutside user key f → covers user key f ≡ some false
  unfolding covers
  LiesOutside-covers f (start, limit, at_start, at_limit, out) =
      rw (at_start, at_limit)
        (elim out [ inl front ↦ rw front refl | inr behind ↦ rw behind (ap some (ground arith)) ])

  none_covers_complete :
      (files : List FileMetaData)
      → All (LiesOutside user key) files
      → none_covers user key files ≡ some true
  unfolding none_covers
  none_covers_complete [] h = refl
  none_covers_complete (g ∷ files) (out, h) =
      rw (LiesOutside-covers g out) (none_covers_complete files h)

  none_below_step :
      (left level : ℕ) (files : List (List FileMetaData))
      → none_below user (suc left) level key files ≡ some true
      → (here : List FileMetaData) × (get_elem? files level ≡ some here)
        × (none_covers user key here ≡ some true)
        × (none_below user left (level + 1) key files ≡ some true)
  unfolding none_below
  none_below_step left level files h =
      let (here, at, next) = >>=-eq-some (get_elem? files level) _ h in
      let (free, answer, next') = >>=-eq-some (none_covers user key here) _ next in
      (here, at, ground (arith, answer, next'), ground (arith, answer, next'))

  -- The key lies outside every file of the levels from the given one on, so many of them.
  abbrev pub OutsideBelow : ℕ → ℕ → List (List FileMetaData) → Type 0
  OutsideBelow left level files =
      (deeper : ℕ) (there : List FileMetaData)
      → level ≤ deeper
      → deeper < level + left
      → get_elem? files deeper ≡ some there
      → All (LiesOutside user key) there

  none_below_sound :
      (left level : ℕ) (files : List (List FileMetaData))
      → none_below user left level key files ≡ some true
      → OutsideBelow left level files
  none_below_sound zero level files h deeper there le lt at = absurd (omega arith)
  none_below_sound (suc left) level files h deeper there le lt at =
      let (here, at_here, free, rest) = none_below_step left level files h in
      elim (Bool-cases (ltb level deeper)) [
        | inl below ↦
            none_below_sound left (level + 1) files rest deeper there
              (omega (arith, ltb→lt level deeper below)) (omega arith) at
        | inr not_deeper ↦
            let same : deeper ≡ level = omega (arith, ltb→le level deeper not_deeper) in
            let one : some here ≡ some there = sym at_here ∙ ap (get_elem? files) (sym same) ∙ at in
            let one' : here ≡ there = cc in none_covers_sound there (rw one' at free)
      ]

  none_below_complete :
      (left level : ℕ) (files : List (List FileMetaData))
      → level + left ≤ length files
      → OutsideBelow left level files
      → none_below user left level key files ≡ some true
  unfolding none_below
  none_below_complete zero level files inside out = refl
  none_below_complete (suc left) level files inside out =
      let (here, at) = get_elem?-lt files level (omega arith) in
      rw (at, none_covers_complete here (out level here (omega arith) (omega arith) at))
        (none_below_complete left (level + 1) files (omega arith)
          (λ deeper there le lt. out deeper there (omega arith) (omega arith)))

  -- On a version of seven levels, a compaction from any level but the last takes the key to have no data
  -- in a deeper level exactly if the key lies in front of the smallest user key, or behind the largest,
  -- of every file that lies more than one level below the compaction's.
  pub is_base_level_for_key_lem :
      (c : Compaction)
      → length c.input_version ≡ num_levels
      → c.level + 2 ≤ num_levels
      → (is_base_level_for_key user c key ≡ some true)
        ↔ OutsideBelow (num_levels - (c.level + 2)) (c.level + 2) c.input_version
  unfolding is_base_level_for_key
  is_base_level_for_key_lem c seven inside = (
    none_below_sound (num_levels - (c.level + 2)) (c.level + 2) c.input_version,
    none_below_complete (num_levels - (c.level + 2)) (c.level + 2) c.input_version (omega arith),
  )
