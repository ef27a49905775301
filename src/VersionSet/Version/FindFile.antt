-- ===== src/VersionSet/Version/FindFile.antt =====
-- src/version_set/version_set.rs: the binary search of a sorted level.
use Prim.Native.Nat.{Ordering, suc}
use pulsearc_db.Base.{
  ℕ, ◌≤◌, ◌<◌, Bytes, List, some, ◌≡◌, ◌≢◌, refl, sym, ◌∙◌, length, get_elem?, none, Bool-cases,
  arith, ◌+◌, ◌∷◌, ltb, ◌-◌, inl, inr, ◌/◌, [], ltb→lt, ltb→le, zero, ap, le→ltb, lt→ltb, false,
  true,
}
use pulsearc_db.Comparator.{Comparator}
use pulsearc_db.Comparator.Order.{IsTotalOrder}
use pulsearc_db.Format.{ParsedInternalKey, internal_compare}
use pulsearc_db.Format.Keys.{IsSequence}
use pulsearc_db.Format.KeyOrder.{
  encoded, key_order, internal_compare-encoded, internal_compare_trans,
}
use pulsearc_db.VersionSet.FileMetaData.{FileMetaData}
use pulsearc_db.VersionSet.Version.{find_loop, is_lt, find_file}
use pulsearc_db.Base.Positions.{get_elem?-lt}

-- A level below the first: each largest key is an internal key, and they ascend.
pub record IsSortedLevel (user : Comparator) (files : List FileMetaData) : Type 0 where
  pub keyed :
      (i : ℕ) (f : FileMetaData)
      → get_elem? files i ≡ some f
      → (k : ParsedInternalKey) × (f.largest ≡ encoded k) × IsSequence k.sequence
  pub sorted :
      (i j : ℕ) (f g : FileMetaData)
      → i < j
      → get_elem? files i ≡ some f
      → get_elem? files j ≡ some g
      → internal_compare user f.largest g.largest ≡ some Ordering.lt

-- Where a search for a key must stop: behind the files whose largest key lies below it.
pub record Splits (user : Comparator) (files : List FileMetaData) (key : Bytes) (index : ℕ)
    : Type 0 where
  pub inside : index ≤ length files
  pub below :
      (i : ℕ) (f : FileMetaData)
      → i < index
      → get_elem? files i ≡ some f
      → internal_compare user f.largest key ≡ some Ordering.lt
  pub above :
      (i : ℕ) (f : FileMetaData)
      → index ≤ i
      → get_elem? files i ≡ some f
      → internal_compare user f.largest key ≢ some Ordering.lt

beyond : (files : List FileMetaData) (i : ℕ) → length files ≤ i → get_elem? files i ≡ none
beyond [] i le = refl
beyond (f ∷ files) zero le = absurd (omega arith)
beyond (f ∷ files) (suc i) le = beyond files i (omega arith)

module _ (user : Comparator) (order : IsTotalOrder user) (files : List FileMetaData)
    (level : IsSortedLevel user files) (target : ParsedInternalKey)
    (fits : IsSequence target.sequence) where
  abbrev IsBelow : FileMetaData → Type 0
  IsBelow f = internal_compare user f.largest (encoded target) ≡ some Ordering.lt

  answer :
      (i : ℕ) (f : FileMetaData)
      → get_elem? files i ≡ some f
      → (o : Ordering) × (internal_compare user f.largest (encoded target) ≡ some o)
  answer i f at =
      let (k, e, seq) = level.keyed i f at in
      (key_order user k target, rw e (internal_compare-encoded user k target seq fits))

  -- What lies before a file below the target lies below it too.
  IsBelow-earlier :
      (i j : ℕ) (f g : FileMetaData)
      → i < j
      → get_elem? files i ≡ some f
      → get_elem? files j ≡ some g
      → IsBelow g
      → IsBelow f
  IsBelow-earlier i j f g lt at at' h =
      let (k, e, seq) = level.keyed i f at in
      let (k', e', seq') = level.keyed j g at' in
      let ascends = level.sorted i j f g lt at at' in
      rw e (
        internal_compare_trans user k k' target order seq seq' fits
          (sym (rw (e, e') refl) ∙ ascends) (sym (rw e' refl) ∙ h))

  abbrev BelowAll : ℕ → Type 0
  BelowAll left = (i : ℕ) (f : FileMetaData) → i < left → get_elem? files i ≡ some f → IsBelow f

  abbrev NoneBelow : ℕ → Type 0
  NoneBelow right =
      (i : ℕ) (f : FileMetaData) → right ≤ i → get_elem? files i ≡ some f → ¬ IsBelow f

  -- Where the middle file lies below the target, so do all up to it.
  upper_BelowAll :
      (mid : ℕ) (g : FileMetaData) → get_elem? files mid ≡ some g → IsBelow g → BelowAll (mid + 1)
  upper_BelowAll mid g at h i f lt at' = elim (Bool-cases (ltb i mid)) [
    | inl earlier ↦ IsBelow-earlier i mid f g (ltb→lt i mid earlier) at' at h
    | inr here ↦
        let same : i ≡ mid = omega (arith, ltb→le i mid here) in
        let one : some f ≡ some g = sym at' ∙ ap (get_elem? files) same ∙ at in cc
  ]

  -- Where it does not, none from it on does.
  lower_NoneBelow :
      (mid : ℕ) (g : FileMetaData) → get_elem? files mid ≡ some g → ¬ IsBelow g → NoneBelow mid
  lower_NoneBelow mid g at h i f le at' below = elim (Bool-cases (ltb mid i)) [
    | inl later ↦ h (IsBelow-earlier mid i g f (ltb→lt mid i later) at at' below)
    | inr here ↦
        let same : i ≡ mid = omega (arith, ltb→le mid i here) in
        let one : some f ≡ some g = sym at' ∙ ap (get_elem? files) same ∙ at in h (cc)
  ]

  abbrev Found : ℕ → ℕ → ℕ → Type 0
  Found rounds left right =
      (index : ℕ) × (find_loop user rounds files (encoded target) left right ≡ some index)
      × Splits user files (encoded target) index

  ended :
      (left right : ℕ)
      → left ≤ right
      → right ≤ length files
      → right ≤ left
      → BelowAll left
      → NoneBelow right
      → Splits user files (encoded target) left
  ended left right ordered inside met below above = record {
    inside = omega arith;
    below = below;
    above = λ i f le at. above i f (omega arith) at;
  }

  loop_end :
      (rounds left right : ℕ)
      → right ≤ left
      → find_loop user rounds files (encoded target) left right ≡ some left
  unfolding find_loop
  loop_end zero left right le = refl
  loop_end (suc rounds) left right le = rw (le→ltb left right le) refl

  abbrev middle : ℕ → ℕ → ℕ
  middle left right = left + (right - left) / 2

  loop_upper :
      (rounds left right : ℕ) (g : FileMetaData)
      → left < right
      → get_elem? files (middle left right) ≡ some g
      → IsBelow g
      → find_loop user (suc rounds) files (encoded target) left right
        ≡ find_loop user rounds files (encoded target) (middle left right + 1) right
  unfolding find_loop
  loop_upper rounds left right g lt at answered = rw (lt→ltb left right lt, at, answered) refl

  loop_lower :
      (rounds left right : ℕ) (g : FileMetaData) (o : Ordering)
      → left < right
      → get_elem? files (middle left right) ≡ some g
      → internal_compare user g.largest (encoded target) ≡ some o
      → is_lt o ≡ false
      → find_loop user (suc rounds) files (encoded target) left right
        ≡ find_loop user rounds files (encoded target) left (middle left right)
  unfolding find_loop
  loop_lower rounds left right g Ordering.lt lt at answered not_lt = cc
  loop_lower rounds left right g Ordering.eq lt at answered not_lt =
      rw (lt→ltb left right lt, at, answered) refl
  loop_lower rounds left right g Ordering.gt lt at answered not_lt =
      rw (lt→ltb left right lt, at, answered) refl

  not-IsBelow :
      (g : FileMetaData) (o : Ordering)
      → internal_compare user g.largest (encoded target) ≡ some o
      → is_lt o ≡ false
      → ¬ IsBelow g
  not-IsBelow g o answered not_lt below =
      let same : some o ≡ some Ordering.lt = sym answered ∙ below in cc

  is_below :
      (g : FileMetaData) (o : Ordering)
      → internal_compare user g.largest (encoded target) ≡ some o
      → is_lt o ≡ true
      → IsBelow g
  is_below g Ordering.lt answered lt = answered
  is_below g Ordering.eq answered lt = cc
  is_below g Ordering.gt answered lt = cc

  find_loop_lem :
      (rounds left right : ℕ)
      → right ≤ left + rounds
      → left ≤ right
      → right ≤ length files
      → BelowAll left
      → NoneBelow right
      → Found rounds left right
  find_loop_lem zero left right enough ordered inside below above = (
    left,
    loop_end zero left right (omega arith),
    ended left right ordered inside (omega arith) below above,
  )
  find_loop_lem (suc rounds) left right enough ordered inside below above =
      elim (Bool-cases (ltb left right)) [
        | inr done ↦ (
          left,
          loop_end (suc rounds) left right (ltb→le left right done),
          ended left right ordered inside (ltb→le left right done) below above,
        )
        | inl more ↦
            let lt = ltb→lt left right more in
            let (g, at) = get_elem?-lt files (middle left right) (omega arith) in
            let (o, answered) = answer (middle left right) g at in
            elim (Bool-cases (is_lt o)) [
              | inl lower ↦
                  let h = is_below g o answered lower in
                  rw (loop_upper rounds left right g lt at h) (
                    find_loop_lem rounds (middle left right + 1) right (omega arith) (omega arith)
                      inside (upper_BelowAll (middle left right) g at h) above)
              | inr higher ↦ rw (loop_lower rounds left right g o lt at answered higher) (
                  find_loop_lem rounds left (middle left right) (omega arith) (omega arith)
                    (omega arith) below
                    (lower_NoneBelow (middle left right) g at (not-IsBelow g o answered higher)))
            ]
      ]

  -- In a level of ascending internal keys the search ends without a panic at the one index that has all
  -- files below the key in front of it, and no file below the key from it on.
  pub find_file-Splits :
      (index : ℕ) × (find_file user files (encoded target) ≡ some index)
      × Splits user files (encoded target) index
  unfolding find_file
  find_file-Splits =
      find_loop_lem (length files) 0 (length files) (omega arith) (omega arith) (omega arith)
        (λ i f lt at. absurd (omega arith)) (λ i f le at below. past i f le at)
    where
      past : (i : ℕ) (f : FileMetaData) → length files ≤ i → get_elem? files i ≡ some f → ⊥
      past i f le at = cc (sym (beyond files i le) ∙ at)
