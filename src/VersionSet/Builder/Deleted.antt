-- ===== src/VersionSet/Builder/Deleted.antt =====
-- src/version_set/version_set.rs: what a builder holds of the files that edits delete.
use pulsearc_db.Base.{
  false, ℕ, ◌<◌, Bool, false, List, [], ◌∷◌, some, ◌≡◌, refl, sym, ◌∙◌, ap, arith, inl, inr, length,
  get_elem?, set, ◌||◌, ◌&&◌, not, ◌==◌, if◌then◌else◌, Bool-cases, ==→eq, ==_refl, All, length-set,
}
use pulsearc_db.Base.Positions.{get_elem?-lt, get_elem?-set, get_elem?-set_other}
use pulsearc_db.VersionSet.FileMetaData.{FileMetaData}
use pulsearc_db.VersionSet.VersionEdit.{DeletedFile, NewFile}
use pulsearc_db.VersionSet.Builder.{
  VersionBuilder, contains, remove_number, at_level, apply_deleted,
}
use pulsearc_db.Format.{num_levels}

-- What an edit says of a level: the numbers that it deletes, and the files that it adds.
unfoldable pub deleted_at : ℕ → List DeletedFile → List ℕ
deleted_at level [] = []
deleted_at level (d ∷ ds) =
    if d.level == level then d.number ∷ deleted_at level ds else deleted_at level ds

unfoldable pub new_at : ℕ → List NewFile → List FileMetaData
new_at level [] = []
new_at level (nf ∷ nfs) = if nf.level == level then nf.meta ∷ new_at level nfs else new_at level nfs

unfoldable pub has_number : ℕ → List FileMetaData → Bool
has_number n [] = false
has_number n (f ∷ files) = f.number == n || has_number n files

-- A builder of seven levels.
pub record IsBuilder (builder : VersionBuilder) : Type 0 where
  pub deleted_levels : length builder.deleted_files ≡ num_levels
  pub added_levels : length builder.added_files ≡ num_levels

pub contains-remove_number :
    (n m : ℕ) (numbers : List ℕ)
    → contains n (remove_number m numbers) ≡ (not (m == n) && contains n numbers)
unfolding contains remove_number
contains-remove_number n m [] = ground arith
contains-remove_number n m (k ∷ numbers) = ground (arith, contains-remove_number n m numbers)

module _ {ℓ} {A : Type ℓ} where
  -- A level in range is changed, and no other.
  pub at_level_lem :
      (level : ℕ) (change : A → A) (levels : List A)
      → level < length levels
      → (old : A) × (get_elem? levels level ≡ some old)
        × (at_level level change levels ≡ some (set levels level (change old)))
  unfolding at_level
  at_level_lem level change levels inside =
      let (old, at) = get_elem?-lt levels level inside in (old, at, rw at refl)

  pub get_elem?-set_level :
      (levels : List A) (level i : ℕ) (a b : A)
      → level < length levels
      → get_elem? levels i ≡ some b
      → get_elem? (set levels level a) i ≡ some (if level == i then a else b)
  get_elem?-set_level levels level i a b inside at = elim (Bool-cases (level == i)) [
    | inl same ↦
        let eq : level ≡ i = ==→eq level i same in
        rw same (ap (get_elem? (set levels level a)) (sym eq) ∙ get_elem?-set levels level a inside)
    | inr other ↦ rw other (
        get_elem?-set_other levels level i a
          (λ eq. cc (ap (λ k. level == k) (sym eq), ==_refl level, other))
        ∙ at)
  ]

-- The edit names levels of the tree only.
abbrev pub DeletedInRange : List DeletedFile → Type 0
DeletedInRange = All (λ (d : DeletedFile). d.level < num_levels)

abbrev pub NewInRange : List NewFile → Type 0
NewInRange = All (λ (nf : NewFile). nf.level < num_levels)

pub record Deletes (ds : List DeletedFile) (b b' : VersionBuilder) : Type 0 where
  pub valid : IsBuilder b'
  pub same_base : b'.base ≡ b.base
  pub same_added : b'.added_files ≡ b.added_files
  pub numbers :
      (level : ℕ) (old : List ℕ)
      → get_elem? b.deleted_files level ≡ some old
      → (now : List ℕ) × (get_elem? b'.deleted_files level ≡ some now)
        × ((n : ℕ) → contains n now ≡ (contains n (deleted_at level ds) || contains n old))

pub apply_deleted_lem :
    (ds : List DeletedFile) (b : VersionBuilder)
    → DeletedInRange ds
    → IsBuilder b
    → (b' : VersionBuilder) × (apply_deleted ds b ≡ some b') × Deletes ds b b'
unfolding apply_deleted
apply_deleted_lem [] b h v = (
  b,
  refl,
  record {
    valid = v;
    same_base = refl;
    same_added = refl;
    numbers = λ level old at. (old, at, λ n. unfold contains deleted_at in refl);
  },
)
apply_deleted_lem (d ∷ ds) b (inside, h) v =
    let in_range : d.level < length b.deleted_files = omega (arith, v.deleted_levels) in
    let (old, at, changed) =
      at_level_lem d.level (λ (numbers : List ℕ). d.number ∷ numbers) b.deleted_files in_range in
    let lists = set b.deleted_files d.level (d.number ∷ old) in
    let b1 : VersionBuilder = record b { deleted_files = lists } in
    let v1 : IsBuilder b1 = record {
      deleted_levels = length-set b.deleted_files d.level (d.number ∷ old) ∙ v.deleted_levels;
      added_levels = v.added_levels;
    } in
    let (b', rest, deletes) = apply_deleted_lem ds b1 h v1 in
    (
      b',
      rw changed rest,
      record {
        valid = deletes.valid;
        same_base = deletes.same_base;
        same_added = deletes.same_added;
        numbers = λ level old' at'. known b' old deletes at in_range level old' at';
      },
    )
  where
    known :
        (b' : VersionBuilder) (old : List ℕ)
        → Deletes ds (record b { deleted_files = set b.deleted_files d.level (d.number ∷ old) }) b'
        → get_elem? b.deleted_files d.level ≡ some old
        → d.level < length b.deleted_files
        → (level : ℕ) (old' : List ℕ) → get_elem? b.deleted_files level ≡ some old'
        → (now : List ℕ) × (get_elem? b'.deleted_files level ≡ some now)
          × ((n : ℕ) → contains n now ≡ (contains n (deleted_at level (d ∷ ds)) || contains n old'))
    known b' old deletes at in_range level old' at' =
        let put =
          get_elem?-set_level b.deleted_files d.level level (d.number ∷ old) old' in_range at' in
        let (now, found, says) =
          deletes.numbers level (if d.level == level then d.number ∷ old else old') put in
        (now, found, λ n. says n ∙ agrees n)
      where
        agrees :
            (n : ℕ)
            → (contains n (deleted_at level ds)
                || contains n (if d.level == level then d.number ∷ old else old'))
              ≡ (contains n (deleted_at level (d ∷ ds)) || contains n old')
        agrees n = elim (Bool-cases (d.level == level)) [
          | inl same ↦
              let eq : d.level ≡ level = ==→eq d.level level same in
              let one : some old ≡ some old' = sym at ∙ ap (get_elem? b.deleted_files) eq ∙ at' in
              unfold contains deleted_at in rw same (ground (arith, one))
          | inr other ↦ unfold contains deleted_at in rw other refl
        ]
