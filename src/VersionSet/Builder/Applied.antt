-- ===== src/VersionSet/Builder/Applied.antt =====
-- src/version_set/version_set.rs: what a builder holds for a level once edits are applied.
use pulsearc_db.Base.{
  true, false, ℕ, ◌<◌, Bool, false, List, [], ◌∷◌, some, ◌≡◌, refl, sym, ◌∙◌, ap, arith, inl, inr,
  get_elem?, set, ◌||◌, ◌&&◌, not, ◌==◌, if◌then◌else◌, Bool-cases, ==→eq, length-set, ◌++◌,
  append_assoc, append-nil, replicate, suc, zero,
}
use pulsearc_db.VersionSet.FileMetaData.{FileMetaData}
use pulsearc_db.VersionSet.VersionEdit.{NewFile, VersionEdit}
use pulsearc_db.VersionSet.Builder.{
  VersionBuilder, contains, remove_number, apply_new, VersionEdit, apply, new_builder,
}
use pulsearc_db.Format.{num_levels}
use pulsearc_db.VersionSet.Builder.Deleted.{
  deleted_at, new_at, has_number, IsBuilder, contains-remove_number, DeletedInRange, NewInRange,
  Deletes, apply_deleted_lem, get_elem?-set_level, at_level_lem,
}

record Adds (nfs : List NewFile) (b b' : VersionBuilder) : Type 0 where
  same_base : b'.base ≡ b.base
  levels :
      (level : ℕ) (old : List ℕ) (files : List FileMetaData)
      → get_elem? b.deleted_files level ≡ some old
      → get_elem? b.added_files level ≡ some files
      → (now : List ℕ) × (get_elem? b'.deleted_files level ≡ some now)
        × (get_elem? b'.added_files level ≡ some (files ++ new_at level nfs))
        × ((n : ℕ) → contains n now ≡ (not (has_number n (new_at level nfs)) && contains n old))

-- One file added to a level, for every level.
added_one :
    (nf : NewFile) (nfs : List NewFile) (b : VersionBuilder) (gone : List ℕ)
    (there : List FileMetaData)
    → IsBuilder b
    → nf.level < num_levels
    → get_elem? b.deleted_files nf.level ≡ some gone
    → get_elem? b.added_files nf.level ≡ some there
    → (b' : VersionBuilder)
    → Adds nfs
        (record b {
          deleted_files = set b.deleted_files nf.level (remove_number (nf.meta).number gone);
          added_files = set b.added_files nf.level (there ++ nf.meta ∷ []);
        })
        b'
    → Adds (nf ∷ nfs) b b'
added_one nf nfs b gone there v inside at_gone at_there b' adds = record {
  same_base = adds.same_base;
  levels = λ level old files at_old at_files.
      let put =
        get_elem?-set_level b.deleted_files nf.level level (remove_number (nf.meta).number gone) old
          (omega (arith, v.deleted_levels)) at_old in
      let put' =
        get_elem?-set_level b.added_files nf.level level (there ++ nf.meta ∷ []) files
          (omega (arith, v.added_levels)) at_files in
      let (now, found, found', says) =
        adds.levels level (if nf.level == level then remove_number (nf.meta).number gone else old)
          (if nf.level == level then there ++ nf.meta ∷ [] else files) put put' in
      (
        now,
        found,
        found' ∙ ap some (same_files level files at_files),
        λ n. says n ∙ same_numbers level old at_old n,
      );
}
  where
    same_files :
        (level : ℕ) (files : List FileMetaData)
        → get_elem? b.added_files level ≡ some files
        → (if nf.level == level then there ++ nf.meta ∷ [] else files) ++ new_at level nfs
          ≡ files ++ new_at level (nf ∷ nfs)
    same_files level files at_files = elim (Bool-cases (nf.level == level)) [
      | inl same ↦
          let eq : nf.level ≡ level = ==→eq nf.level level same in
          let one : some there ≡ some files =
            sym at_there ∙ ap (get_elem? b.added_files) eq ∙ at_files in
          let one' : there ≡ files = cc in
          unfold new_at in
          rw same (
            append_assoc there (nf.meta ∷ []) (new_at level nfs)
            ∙ ap (λ t. t ++ nf.meta ∷ new_at level nfs) one')
      | inr other ↦ unfold new_at in rw other refl
    ]

    same_numbers :
        (level : ℕ) (old : List ℕ)
        → get_elem? b.deleted_files level ≡ some old
        → (n : ℕ)
        → (not (has_number n (new_at level nfs))
            && contains n (if nf.level == level then remove_number (nf.meta).number gone else old))
          ≡ (not (has_number n (new_at level (nf ∷ nfs))) && contains n old)
    same_numbers level old at_old n = elim (Bool-cases (nf.level == level)) [
      | inl same ↦
          let eq : nf.level ≡ level = ==→eq nf.level level same in
          let one : some gone ≡ some old =
            sym at_gone ∙ ap (get_elem? b.deleted_files) eq ∙ at_old in
          let one' : gone ≡ old = cc in
          unfold new_at has_number in
          rw (same, contains-remove_number n (nf.meta).number gone, one')
            (regroup ((nf.meta).number == n) (has_number n (new_at level nfs)) (contains n old))
      | inr other ↦ unfold new_at in rw other refl
    ]
      where
        regroup : (a h c : Bool) → (not h && (not a && c)) ≡ (not (a || h) && c)
        regroup true true c = refl
        regroup true false c = refl
        regroup false true c = refl
        regroup false false c = refl

apply_new_lem :
    (nfs : List NewFile) (b : VersionBuilder)
    → NewInRange nfs
    → IsBuilder b
    → (b' : VersionBuilder) × (apply_new nfs b ≡ some b') × Adds nfs b b'
unfolding apply_new
apply_new_lem [] b h v = (
  b,
  refl,
  record {
    same_base = refl;
    levels = λ level old files at at'. (
      old,
      at,
      unfold new_at in at' ∙ ap some (sym (append-nil files)),
      λ n. unfold has_number new_at in refl,
    );
  },
)
apply_new_lem (nf ∷ nfs) b (inside, h) v =
    let (gone, at_gone, removed) =
      at_level_lem nf.level (remove_number (nf.meta).number) b.deleted_files
        (omega (arith, v.deleted_levels)) in
    let (there, at_there, pushed) =
      at_level_lem nf.level (λ (files : List FileMetaData). files ++ nf.meta ∷ []) b.added_files
        (omega (arith, v.added_levels)) in
    let b1 : VersionBuilder = record b {
      deleted_files = set b.deleted_files nf.level (remove_number (nf.meta).number gone);
      added_files = set b.added_files nf.level (there ++ nf.meta ∷ []);
    } in
    let v1 : IsBuilder b1 = record {
      deleted_levels = length-set b.deleted_files nf.level _ ∙ v.deleted_levels;
      added_levels = length-set b.added_files nf.level _ ∙ v.added_levels;
    } in
    let (b', rest, adds) = apply_new_lem nfs b1 h v1 in
    (b', rw (removed, pushed) rest, added_one nf nfs b gone there v inside at_gone at_there b' adds)

-- What a builder of one edit holds for a level: the files added, and the numbers that are deleted and
-- not added again.
pub record IsApplied (edit : VersionEdit) (base : List (List FileMetaData)) (b : VersionBuilder)
    : Type 0 where
  pub same_base : b.base ≡ base
  pub levels :
      (level : ℕ)
      → level < num_levels
      → (gone : List ℕ) × (get_elem? b.deleted_files level ≡ some gone)
        × (get_elem? b.added_files level ≡ some (new_at level edit.new_files))
        × ((n : ℕ)
            → contains n gone ≡ (
                not (has_number n (new_at level edit.new_files))
                && contains n (deleted_at level edit.deleted_files)))

get_elem?-replicate {ℓ} :
    {A : Type ℓ} (count level : ℕ) (a : A)
    → level < count
    → get_elem? (replicate count a) level ≡ some a
get_elem?-replicate zero level a h = absurd (omega arith)
get_elem?-replicate (suc count) zero a h = refl
get_elem?-replicate (suc count) (suc level) a h = get_elem?-replicate count level a (omega arith)

new_builder-IsBuilder : (base : List (List FileMetaData)) → IsBuilder (new_builder base)
unfolding new_builder
new_builder-IsBuilder base = record { deleted_levels = refl; added_levels = refl }

pub apply_lem :
    (edit : VersionEdit) (base : List (List FileMetaData))
    → DeletedInRange edit.deleted_files
    → NewInRange edit.new_files
    → (b : VersionBuilder) × (apply edit (new_builder base) ≡ some b) × IsApplied edit base b
unfolding apply
apply_lem edit base dels news =
    let (b1, done1, deletes) =
      apply_deleted_lem edit.deleted_files (new_builder base) dels (new_builder-IsBuilder base) in
    let (b2, done2, adds) = apply_new_lem edit.new_files b1 news deletes.valid in
    (
      b2,
      rw done1 done2,
      record {
        same_base = adds.same_base ∙ deletes.same_base ∙ unfold new_builder in refl;
        levels = λ level inside. both b1 b2 deletes adds level inside;
      },
    )
  where
    both :
        (b1 b2 : VersionBuilder)
        → Deletes edit.deleted_files (new_builder base) b1
        → Adds edit.new_files b1 b2
        → (level : ℕ) → level < num_levels
        → (gone : List ℕ) × (get_elem? b2.deleted_files level ≡ some gone)
          × (get_elem? b2.added_files level ≡ some (new_at level edit.new_files))
          × ((n : ℕ)
              → contains n gone ≡ (
                  not (has_number n (new_at level edit.new_files))
                  && contains n (deleted_at level edit.deleted_files)))
    both b1 b2 deletes adds level inside =
        let (now, at, says) =
          deletes.numbers level [] (unfold new_builder in get_elem?-replicate 7 level [] inside) in
        let none_added : get_elem? b1.added_files level ≡ some [] =
          ap (λ l. get_elem? l level) deletes.same_added
          ∙ unfold new_builder in get_elem?-replicate 7 level [] inside in
        let (gone, at', added, says') = adds.levels level now [] at none_added in
        (
          gone,
          at',
          added,
          λ n.
              says' n
              ∙ ap (λ t. not (has_number n (new_at level edit.new_files)) && t) (says n ∙ plain n),
        )
      where
        plain :
            (n : ℕ)
            → (contains n (deleted_at level edit.deleted_files) || contains n [])
              ≡ contains n (deleted_at level edit.deleted_files)
        plain n = unfold contains in ground arith
