-- ===== src/MergingIter/Smallest.antt =====
-- src/merging_iter/merging_iter.rs: the child with the smallest key.
use pulsearc_db.Base.{
  ℕ, zero, suc, ◌+◌, Bool, true, false, Bytes, List, [], ◌∷◌, Option, none, some, get_elem?, All,
  ◌≡◌, refl, ◌∙◌, ap, ◌⊎◌, inl, inr, arith, Bool-cases, ◌&&◌,
}
use pulsearc_db.Comparator.{Comparator}
use pulsearc_db.Comparator.Order.{IsTotalOrder}
use pulsearc_db.VersionSet.Version.{is_gt}
use pulsearc_db.MergingIter.{DbIterator, below_best, smallest_loop}

-- What the forward methods of a child rely on: `left` is the entries that it still has in front of it.
pub record IsForward {ℓ} {I : Type ℓ} (it : DbIterator I) (left : I → List (Bytes × Bytes))
    : Type ℓ where
  pub at_end : (c : I) → left c ≡ [] → it.valid c ≡ false
  pub at_entry :
      (c : I) (k v : Bytes) (es : List (Bytes × Bytes))
      → left c ≡ (k, v) ∷ es
      → (it.valid c ≡ true) × (it.key c ≡ k) × (it.value c ≡ v) × (left (it.next c) ≡ es)

module _ {ℓ} {I : Type ℓ} (comparator : Comparator) (order : IsTotalOrder comparator)
    (it : DbIterator I) where
  abbrev pub NotAbove : Bytes → Bytes → Type 0
  NotAbove a b = is_gt (comparator.compare a b) ≡ false

  pub NotAbove-trans : (a b c : Bytes) → NotAbove a b → NotAbove b c → NotAbove a c
  NotAbove-trans a b c p q = ground (
    arith,
    order.flip a b,
    order.flip b c,
    order.flip a c,
    order.trans c a b,
    order.trans b c a,
    order.trans c b a,
    order.equal a b,
    order.equal b c,
    order.equal a c,
    order.self a,
  )

  NotAbove-self : (a : Bytes) → NotAbove a a
  NotAbove-self a = ground (arith, order.self a)

  -- No valid child of the list has a key below the given one.
  abbrev pub Least : Bytes → List I → Type 0
  Least key cs = All (λ c. it.valid c ≡ true → NotAbove key (it.key c)) cs

  -- The best child is one of the list's from index `i` on, or the one before it.
  abbrev Best : List I → ℕ → Option (ℕ × I) → Option (ℕ × I) → Type ℓ
  Best cs i best none = (best ≡ none) × All (λ c. it.valid c ≡ false) cs
  Best cs i best (some (j, d)) =
      ((best ≡ some (j, d))
        ⊎ ((n : ℕ) × (j ≡ n + i) × (get_elem? cs n ≡ some d) × (it.valid d ≡ true)))
      × Least (it.key d) cs
      × ((s : ℕ) (b : I) → best ≡ some (s, b) → NotAbove (it.key d) (it.key b))

  first_of : I → Option (ℕ × I) → ℕ × I
  first_of c none = (0, c)
  first_of c (some p) = p

  some_index : {i j : ℕ} {c d : I} → ◌≡◌ {A = Option (ℕ × I)} (some (i, c)) (some (j, d)) → i ≡ j
  unfolding first_of
  some_index {i} {j} {c} {d} e = ap (λ o. (first_of c o).0) e

  some_child : {i j : ℕ} {c d : I} → ◌≡◌ {A = Option (ℕ × I)} (some (i, c)) (some (j, d)) → c ≡ d
  unfolding first_of
  some_child {i} {j} {c} {d} e = ap (λ o. (first_of c o).1) e

  -- A child that is taken is no higher than the one before it, and one that is not is no lower.
  taken_below :
      (c : I) (best : Option (ℕ × I)) (s : ℕ) (b : I)
      → below_best comparator it c best ≡ true
      → best ≡ some (s, b)
      → NotAbove (it.key c) (it.key b)
  unfolding below_best
  taken_below c none s b h e = absurd (ground arith)
  taken_below c (some (t, a)) s b h e = rw⁻¹ (some_child e) (ground (arith, h))

  not_taken :
      (c : I) (best : Option (ℕ × I))
      → below_best comparator it c best ≡ false
      → (s : ℕ) × (b : I) × (best ≡ some (s, b)) × NotAbove (it.key b) (it.key c)
  unfolding below_best
  not_taken c none h = absurd (ground arith)
  not_taken c (some (t, a)) h = (t, a, refl, ground (arith, h, order.flip (it.key a) (it.key c)))

  take_step :
      (c : I) (cs : List I) (i : ℕ) (best res : Option (ℕ × I))
      → it.valid c ≡ true
      → below_best comparator it c best ≡ true
      → Best cs (suc i) (some (i, c)) res
      → Best (c ∷ cs) i best res
  take_step c cs i best none v below (e, later) = absurd (ground arith)
  take_step c cs i best (some (j, d)) v below (origin, least, under) = (
    elim origin [
      | inl e ↦
          inr (zero, omega (arith, some_index e), ap some (some_child e), rw⁻¹ (some_child e) v)
      | inr (n, at, there, vd) ↦ inr (suc n, omega arith, there, vd)
    ],
    ((λ _. under i c refl), least),
    λ s b e.
        NotAbove-trans (it.key d) (it.key c) (it.key b) (under i c refl)
          (taken_below c best s b below e),
  )

  below_none : (c : I) → below_best comparator it c none ≡ true
  unfolding below_best
  below_none c = refl

  and_true : (a b : Bool) → b ≡ true → (a && b) ≡ false → a ≡ false
  and_true a b h e = ground arith

  true_and : (a b : Bool) → a ≡ true → (a && b) ≡ false → b ≡ false
  true_and a b h e = ground arith

  and_left : (a b : Bool) → (a && b) ≡ true → a ≡ true
  and_left a b h = ground arith

  and_right : (a b : Bool) → (a && b) ≡ true → b ≡ true
  and_right a b h = ground arith

  skip_step :
      (c : I) (cs : List I) (i : ℕ) (best res : Option (ℕ × I))
      → (it.valid c && below_best comparator it c best) ≡ false
      → Best cs (suc i) best res
      → Best (c ∷ cs) i best res
  skip_step c cs i best none skipped (e, later) =
      (e, (and_true _ _ (ap (below_best comparator it c) e ∙ below_none c) skipped, later))
  skip_step c cs i best (some (j, d)) skipped (origin, least, under) = (
    elim origin [ inl e ↦ inl e | inr (n, at, there, vd) ↦ inr (suc n, omega arith, there, vd) ],
    (
      (λ v.
          let (s, b, is, lower) = not_taken c best (true_and _ _ v skipped) in
          NotAbove-trans (it.key d) (it.key b) (it.key c) (under s b is) lower),
      least,
    ),
    under,
  )

  smallest_loop_lem :
      (cs : List I) (i : ℕ) (best : Option (ℕ × I))
      → Best cs i best (smallest_loop comparator it i cs best)
  unfolding smallest_loop
  smallest_loop_lem [] i none = (refl, tt)
  smallest_loop_lem [] i (some (j, d)) =
      (inl refl, tt, λ s b e. rw (some_child e) (NotAbove-self (it.key b)))
  smallest_loop_lem (c ∷ cs) i best =
      elim (Bool-cases (it.valid c && below_best comparator it c best)) [
        | inl taken ↦ rw taken (
            take_step c cs i best _ (and_left _ _ taken) (and_right _ _ taken)
              (smallest_loop_lem cs (suc i) (some (i, c))))
        | inr skipped ↦
            rw skipped (skip_step c cs i best _ skipped (smallest_loop_lem cs (suc i) best))
      ]

  abbrev Shown : List I → Option (ℕ × I) → Type ℓ
  Shown cs res =
      ((res ≡ none) × All (λ c. it.valid c ≡ false) cs)
      ⊎ ((i : ℕ) × (d : I) × (res ≡ some (i, d))
          × (get_elem? cs i ≡ some d)
          × (it.valid d ≡ true)
          × Least (it.key d) cs)

  -- The search finds no child where none is valid, or else a valid child with the smallest key.
  pub smallest_cases : (cs : List I) → Shown cs (smallest_loop comparator it 0 cs none)
  smallest_cases cs = shown (smallest_loop comparator it 0 cs none) (smallest_loop_lem cs 0 none)
    where
      shown : (res : Option (ℕ × I)) → Best cs 0 none res → Shown cs res
      shown none (_, invalid) = inl (refl, invalid)
      shown (some (j, d)) (inl e, least, _) = absurd (ground arith)
      shown (some (j, d)) (inr (n, at, there, v), least, _) =
          inr (j, d, refl, ap (get_elem? cs) (at ∙ omega arith) ∙ there, v, least)
