-- ===== src/VersionSet/Builder/Saved.antt =====
-- src/version_set/version_set.rs: the version that a builder makes of a base and an edit.
use Prim.Native.Nat.{compare, Ordering}
use mathlib.Core.List.{Perm}
use pulsearc_db.Base.{
  ℕ, ◌<◌, true, false, List, [], ◌∷◌, ◌++◌, some, ◌≡◌, ◌≢◌, refl, sym, ◌∙◌, ap, arith, inl, inr,
  get_elem?, ◌&&◌, not, ◌==◌, if◌then◌else◌, Bool-cases, All, ◌≤◌,
}
use pulsearc_db.Base.Sort.{sort_by, IsSorted, IsOrder, sort_by_lem}
use pulsearc_db.Comparator.{Comparator}
use pulsearc_db.Comparator.Order.{IsTotalOrder}
use pulsearc_db.Format.{num_levels, ParsedInternalKey, internal_compare}
use pulsearc_db.VersionSet.FileMetaData.{FileMetaData}
use pulsearc_db.VersionSet.VersionEdit.{VersionEdit}
use pulsearc_db.VersionSet.Builder.{
  VersionBuilder, contains, surviving, by_number, by_smallest, save_level, apply, new_builder,
}
use pulsearc_db.VersionSet.Builder.Applied.{IsApplied, apply_lem}
use pulsearc_db.VersionSet.Builder.Deleted.{
  deleted_at, new_at, has_number, DeletedInRange, NewInRange,
}
use pulsearc_db.Format.KeyOrder.{
  key_order, encoded, key_order_trans, key_order_flip, internal_compare-encoded, key_order_equal,
}
use pulsearc_db.Format.Keys.{IsSequence}

-- The files of a level that an edit leaves: those it does not delete, or adds again.
unfoldable pub kept : ℕ → VersionEdit → List FileMetaData → List FileMetaData
kept level edit [] = []
kept level edit (f ∷ files) =
    if not (has_number f.number (new_at level edit.new_files))
      && contains f.number (deleted_at level edit.deleted_files)
    then kept level edit files
    else f ∷ kept level edit files

surviving-kept :
    (level : ℕ) (edit : VersionEdit) (gone : List ℕ) (files : List FileMetaData)
    → ((n : ℕ)
        → contains n gone ≡ (
            not (has_number n (new_at level edit.new_files))
            && contains n (deleted_at level edit.deleted_files)))
    → surviving gone files ≡ kept level edit files
unfolding surviving kept
surviving-kept level edit gone [] says = refl
surviving-kept level edit gone (f ∷ files) says =
    rw (says f.number, surviving-kept level edit gone files says) refl

-- A file that is added is not among the deleted.
surviving_new :
    (gone : List ℕ) (all files : List FileMetaData)
    → ((n : ℕ) → has_number n all ≡ true → contains n gone ≡ false)
    → ((n : ℕ) → has_number n files ≡ true → has_number n all ≡ true)
    → surviving gone files ≡ files
unfolding surviving
surviving_new gone all [] free part = refl
surviving_new gone all (f ∷ files) free part =
    rw (free f.number (part f.number (unfold has_number in ground arith))) (
      ap (λ t. f ∷ t)
        (surviving_new gone all files free
          (λ n h. part n (unfold has_number in ground (arith, h)))))

pub le_of_compare : (a b : ℕ) (o : Ordering) → some (compare a b) ≡ some o → o ≢ Ordering.gt → a ≤ b
le_of_compare a b Ordering.lt e h = ground arith
le_of_compare a b Ordering.eq e h = ground arith
le_of_compare a b Ordering.gt e h = absurd (h refl)

by_number-IsOrder : IsOrder by_number (λ f. Unit {0})
unfolding by_number
by_number-IsOrder = record {
  answers = λ a b fa fb. (compare a.number b.number, refl);
  turns = λ a b fa fb gt. (compare b.number a.number, refl, λ e. ground (arith, gt, e));
  joins = λ a b c fa fb fc (o, p, h) (o', p', h'). (
    compare a.number c.number,
    refl,
    λ e.
        ground (
          arith,
          e,
          le_of_compare a.number b.number o p h,
          le_of_compare b.number c.number o' p' h',
        ),
  );
}

-- The smallest key of the file is an internal key.
abbrev pub HasSmallest : FileMetaData → Type 0
HasSmallest f = (k : ParsedInternalKey) × (f.smallest ≡ encoded k) × IsSequence k.sequence

module _ (user : Comparator) (order : IsTotalOrder user) where
  told :
      (a b : FileMetaData) (ha : HasSmallest a) (hb : HasSmallest b)
      → by_smallest user a b ≡ some (key_order user ha.0 hb.0)
  unfolding by_smallest
  told a b (k, e, s) (k', e', s') =
      ap (λ t. internal_compare user t b.smallest) e
      ∙ ap (internal_compare user (encoded k)) e'
      ∙ internal_compare-encoded user k k' s s'

  key_order_le_trans :
      (a b c : ParsedInternalKey) (o o' : Ordering)
      → key_order user a b ≡ o
      → o ≢ Ordering.gt
      → key_order user b c ≡ o'
      → o' ≢ Ordering.gt
      → key_order user a c ≢ Ordering.gt
  key_order_le_trans a b c Ordering.gt o' p h p' h' = absurd (h refl)
  key_order_le_trans a b c Ordering.lt Ordering.gt p h p' h' = absurd (h' refl)
  key_order_le_trans a b c Ordering.eq Ordering.gt p h p' h' = absurd (h' refl)
  key_order_le_trans a b c Ordering.lt Ordering.lt p h p' h' =
      λ gt. cc (key_order_trans user a b c order p p', gt)
  key_order_le_trans a b c Ordering.lt Ordering.eq p h p' h' =
      λ gt. cc (ap (key_order user a) (key_order_equal user b c order p'), gt)
  key_order_le_trans a b c Ordering.eq Ordering.lt p h p' h' =
      λ gt. cc (ap (λ t. key_order user t c) (key_order_equal user a b order p), gt)
  key_order_le_trans a b c Ordering.eq Ordering.eq p h p' h' =
      λ gt. cc (ap (λ t. key_order user t c) (key_order_equal user a b order p), gt)

  by_smallest-IsOrder : IsOrder (by_smallest user) HasSmallest
  by_smallest-IsOrder = record {
    answers = λ a b ha hb. (key_order user ha.0 hb.0, told a b ha hb);
    turns = λ a b ha hb gt.
        let other : some (key_order user ha.0 hb.0) ≡ some Ordering.gt =
          sym (told a b ha hb) ∙ gt in
        let flipped = key_order_flip user ha.0 hb.0 order in
        (key_order user hb.0 ha.0, told b a hb ha, λ e. ground (arith, other, flipped, e));
    joins = λ a b c ha hb hc (o, p, h) (o', p', h').
        let q : some (key_order user ha.0 hb.0) ≡ some o = sym (told a b ha hb) ∙ p in
        let q' : some (key_order user hb.0 hc.0) ≡ some o' = sym (told b c hb hc) ∙ p' in
        (
          key_order user ha.0 hc.0,
          told a c ha hc,
          key_order_le_trans ha.0 hb.0 hc.0 o o' (cc) h (cc) h',
        );
  }

  -- The order that a level is kept in: by number at level 0, else by smallest key.
  abbrev pub IsOrderedLevel : ℕ → List FileMetaData → Type 0
  IsOrderedLevel level files =
      if level == 0 then IsSorted by_number files else IsSorted (by_smallest user) files

  sorted_level :
      (level : ℕ) (files : List FileMetaData)
      → All HasSmallest files
      → (r : List FileMetaData) × ((if level == 0
            then sort_by by_number files
            else sort_by (by_smallest user) files)
          ≡ some r)
        × Perm r files
        × IsOrderedLevel level r
  sorted_level level files h = elim (Bool-cases (level == 0)) [
    | inl first ↦
        let (r, found, perm, _, s) =
          sort_by_lem by_number (λ f. Unit {0}) by_number-IsOrder files (any files) in
        (r, rw first found, perm, rw first s)
    | inr deeper ↦
        let (r, found, perm, _, s) =
          sort_by_lem (by_smallest user) HasSmallest by_smallest-IsOrder files h in
        (r, rw deeper found, perm, rw deeper s)
  ]
    where
      any : (fs : List FileMetaData) → All (λ f. Unit {0}) fs
      any [] = tt
      any (f ∷ fs) = (tt, any fs)

  -- An edit of levels in range is applied to a base without a panic, and each level of the version made
  -- holds the files that the base had there and the edit does not delete, or adds again, and the files
  -- that the edit adds, each as often; a level is in its order. The comparator is a total order, and
  -- the smallest keys of the level's files are internal keys.
  pub save_level-apply :
      (edit : VersionEdit) (base : List (List FileMetaData)) (level : ℕ) (files : List FileMetaData)
      → DeletedInRange edit.deleted_files
      → NewInRange edit.new_files
      → level < num_levels
      → get_elem? base level ≡ some files
      → All HasSmallest (kept level edit files ++ new_at level edit.new_files)
      → (b : VersionBuilder) × (r : List FileMetaData) × (apply edit (new_builder base) ≡ some b)
        × (save_level user level b ≡ some r)
        × Perm r (kept level edit files ++ new_at level edit.new_files)
        × IsOrderedLevel level r
  save_level-apply edit base level files dels news inside at h =
      let (b, applied, is) = apply_lem edit base dels news in
      let (gone, at_gone, at_added, says) = is.levels level inside in
      let (r, found, perm, s) =
        sorted_level level (kept level edit files ++ new_at level edit.new_files) h in
      (b, r, applied, saved b gone r is at_gone at_added says found, perm, s)
    where
      added_news :
          (gone : List ℕ)
          → ((n : ℕ)
              → contains n gone ≡ (
                  not (has_number n (new_at level edit.new_files))
                  && contains n (deleted_at level edit.deleted_files)))
          → surviving gone (new_at level edit.new_files) ≡ new_at level edit.new_files
      added_news gone says =
          surviving_new gone (new_at level edit.new_files) (new_at level edit.new_files)
            (λ n there. says n ∙ rw there refl) (λ n there. there)

      saved :
          (b : VersionBuilder) (gone : List ℕ) (r : List FileMetaData)
          → IsApplied edit base b
          → get_elem? b.deleted_files level ≡ some gone
          → get_elem? b.added_files level ≡ some (new_at level edit.new_files)
          → ((n : ℕ)
              → contains n gone ≡ (
                  not (has_number n (new_at level edit.new_files))
                  && contains n (deleted_at level edit.deleted_files)))
          → (if level == 0
              then sort_by by_number (kept level edit files ++ new_at level edit.new_files)
              else sort_by
                  (by_smallest user)
                  (kept level edit files ++ new_at level edit.new_files))
            ≡ some r
          → save_level user level b ≡ some r
      saved b gone r is at_gone at_added says found =
          unfold save_level in
          rw
            (
              is.same_base,
              at,
              at_gone,
              at_added,
              surviving-kept level edit gone files says,
              added_news gone says,
            )
            found
