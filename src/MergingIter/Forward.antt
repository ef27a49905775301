-- ===== src/MergingIter/Forward.antt =====
-- src/merging_iter/merging_iter.rs: walking forward over children that are sorted lists.
use mathlib.Core.List.{Perm, perm_middle}
use mathlib.Core.List.Perm
use pulsearc_db.Base.{
  ℕ, zero, suc, true, false, Bytes, List, [], ◌∷◌, ◌++◌, Option, none, some, get_elem?, set, map,
  length, All, ◌≡◌, refl, sym, ◌∙◌, ap, arith, length-append, if◌then◌else◌, All-append, ◌≤◌, inl,
  inr,
}
use pulsearc_db.Base.Options.{◌>>=◌}
use pulsearc_db.Comparator.{Comparator}
use pulsearc_db.Comparator.Order.{IsTotalOrder}
use pulsearc_db.MergingIter.{
  DbIterator, MergingIterator, forward, merged_valid, merged_next, merged_seek_to_first,
  find_smallest, smallest_loop, index_of, current_child, move_child, turn_forward,
}
use pulsearc_db.MergingIter.Smallest.{IsForward, NotAbove, NotAbove-trans, Least, smallest_cases}

module _ {ℓ} {I : Type ℓ} (comparator : Comparator) (it : DbIterator I) where
  -- The client's loop, `while m.valid() { …; m.next() }`: what it sees, and the iterator at its end.
  unfoldable pub merge_walk :
      ℕ → MergingIterator I → Option (List (Bytes × Bytes) × MergingIterator I)
  merge_walk zero m = none
  merge_walk (suc rounds) m =
      let rest =
        (current_child m >>= λ c. merged_next comparator it m >>= λ at.
        merge_walk rounds at >>= λ (entries, last).
        some ((it.key c, it.value c) ∷ entries, last)) in
      if merged_valid comparator it m then rest else some ([], m)

module _ {ℓ} {I : Type ℓ} (comparator : Comparator) (order : IsTotalOrder comparator)
    (it : DbIterator I) (left : I → List (Bytes × Bytes)) (laws : IsForward it left) where
  abbrev Bound : Bytes → List (Bytes × Bytes) → Type 0
  Bound key es = All (λ e. NotAbove comparator order it key e.0) es

  -- The keys ascend, and may repeat.
  abbrev pub IsAscending : List (Bytes × Bytes) → Type 0
  IsAscending [] = Unit
  IsAscending ((k, v) ∷ es) = Bound k es × IsAscending es

  -- The entries that the children have in front of them.
  abbrev pub lefts : List I → List (Bytes × Bytes)
  lefts [] = []
  lefts (c ∷ cs) = left c ++ lefts cs

  invalid_left :
      (c : I) (es : List (Bytes × Bytes)) → left c ≡ es → it.valid c ≡ false → left c ≡ []
  invalid_left c [] e h = e
  invalid_left c ((k, v) ∷ es) e h = absurd (cc (sym (laws.at_entry c k v es e).0 ∙ h))

  lefts_invalid : (cs : List I) → All (λ c. it.valid c ≡ false) cs → lefts cs ≡ []
  lefts_invalid [] h = refl
  lefts_invalid (c ∷ cs) (h, hs) =
      ap (λ t. t ++ lefts cs) (invalid_left c (left c) refl h) ∙ lefts_invalid cs hs

  -- A valid child is at an entry.
  valid_left :
      (c : I) (es : List (Bytes × Bytes))
      → left c ≡ es
      → it.valid c ≡ true
      → left c ≡ (it.key c, it.value c) ∷ left (it.next c)
  valid_left c [] e h = absurd (cc (sym (laws.at_end c e) ∙ h))
  valid_left c ((k, v) ∷ es) e h =
      let (_, on_key, on_value, on_next) = laws.at_entry c k v es e in
      rw (on_key, on_value, on_next) e

  some_eq : {c d : I} → some c ≡ some d → c ≡ d
  some_eq e = cc e

  -- Moving one child on takes its first entry out.
  lefts_move :
      (cs : List I) (i : ℕ) (c c' : I) (e : Bytes × Bytes)
      → get_elem? cs i ≡ some c
      → left c ≡ e ∷ left c'
      → Perm (e ∷ lefts (set cs i c')) (lefts cs)
        × (length (lefts cs) ≡ suc (length (lefts (set cs i c'))))
  lefts_move [] i c c' e at h = absurd (ground arith)
  lefts_move (d ∷ cs) zero c c' e at h =
      let e' : left d ≡ e ∷ left c' = ap left (some_eq at) ∙ h in (rw e' (Perm.refl _), rw e' refl)
  lefts_move (d ∷ cs) (suc i) c c' e at h =
      let (perm, count) = lefts_move cs i c c' e at h in
      (
        Perm.trans (Perm.symm (perm_middle (left d) (lefts (set cs i c'))))
            (Perm.append_left (left d) perm),
        omega (
          arith,
          count,
          length-append (left d) (lefts cs),
          length-append (left d) (lefts (set cs i c')),
        ),
      )

  Bound-split :
      (key : Bytes) (xs ys : List (Bytes × Bytes))
      → Bound key (xs ++ ys)
      → Bound key xs × Bound key ys
  Bound-split key [] ys b = (tt, b)
  Bound-split key (x ∷ xs) ys (h, b) =
      let (front, back) = Bound-split key xs ys b in ((h, front), back)

  Bound-move :
      (key : Bytes) (cs : List I) (i : ℕ) (c c' : I) (e : Bytes × Bytes)
      → get_elem? cs i ≡ some c
      → left c ≡ e ∷ left c'
      → Bound key (lefts cs)
      → Bound key (lefts (set cs i c'))
  Bound-move key [] i c c' e at h b = absurd (ground arith)
  Bound-move key (d ∷ cs) zero c c' e at h b =
      let e' : left d ≡ e ∷ left c' = ap left (some_eq at) ∙ h in (rw e' at b).1
  Bound-move key (d ∷ cs) (suc i) c c' e at h b =
      let (mine, others) = Bound-split key (left d) (lefts cs) b in
      All-append _ (left d) (lefts (set cs i c')) (mine, Bound-move key cs i c c' e at h others)

  -- What moves to the front is bound with the rest.
  Bound-head :
      (key : Bytes) (cs : List I) (i : ℕ) (c c' : I) (e : Bytes × Bytes)
      → get_elem? cs i ≡ some c
      → left c ≡ e ∷ left c'
      → Bound key (lefts cs)
      → NotAbove comparator order it key e.0
  Bound-head key [] i c c' e at h b = absurd (ground arith)
  Bound-head key (d ∷ cs) zero c c' e at h b =
      let e' : left d ≡ e ∷ left c' = ap left (some_eq at) ∙ h in (rw e' at b).0
  Bound-head key (d ∷ cs) (suc i) c c' e at h b =
      Bound-head key cs i c c' e at h (Bound-split key (left d) (lefts cs) b).1

  -- Every child's entries ascend.
  abbrev pub AllAscending : List I → Type 0
  AllAscending cs = All (λ c. IsAscending (left c)) cs

  AllAscending-move :
      (cs : List I) (i : ℕ) (c c' : I) (e : Bytes × Bytes)
      → get_elem? cs i ≡ some c
      → left c ≡ e ∷ left c'
      → AllAscending cs
      → AllAscending (set cs i c')
  AllAscending-move [] i c c' e at h a = absurd (ground arith)
  AllAscending-move (d ∷ cs) zero c c' e at h (a, as') =
      let e' : left d ≡ e ∷ left c' = ap left (some_eq at) ∙ h in ((rw e' at a).1, as')
  AllAscending-move (d ∷ cs) (suc i) c c' e at h (a, as') =
      (a, AllAscending-move cs i c c' e at h as')

  lower :
      (a b : Bytes) (es : List (Bytes × Bytes))
      → NotAbove comparator order it a b
      → Bound b es
      → Bound a es
  lower a b [] h s = tt
  lower a b (e ∷ es) h (first, s) =
      (NotAbove-trans comparator order it a b e.0 h first, lower a b es h s)

  -- A key that no child's is below is no higher than any entry that is left.
  Least-Bound :
      (key : Bytes) (cs : List I)
      → Least comparator order it key cs
      → AllAscending cs
      → Bound key (lefts cs)
  Least-Bound key [] least a = tt
  Least-Bound key (c ∷ cs) (h, least) (a, as') =
      All-append _ (left c) (lefts cs) (mine (left c) refl, Least-Bound key cs least as')
    where
      mine : (es : List (Bytes × Bytes)) → left c ≡ es → Bound key es
      mine [] e = tt
      mine ((k, v) ∷ es) e =
          let (valid, on_key, _, _) = laws.at_entry c k v es e in
          let low : NotAbove comparator order it key k = rw on_key at (h valid) in
          (low, lower key k es low (rw e at a).0)

  -- The walk's result: all the entries, in the order of their keys.
  abbrev pub Merged : ℕ → MergingIterator I → List I → Type ℓ
  Merged rounds m cs =
      (r : List (Bytes × Bytes)) × (last : MergingIterator I) × (merge_walk comparator it rounds m
        ≡ some (r, last))
      × (merged_valid comparator it last ≡ false)
      × Perm r (lefts cs)
      × IsAscending r
      × ((key : Bytes) → Bound key (lefts cs) → Bound key r)

  -- The iterator in the middle of a walk: it goes forward, and is at the smallest child.
  at_smallest : List I → MergingIterator I
  at_smallest cs = record {
    children = cs;
    current = index_of (smallest_loop comparator it 0 cs none);
    direction = forward;
  }

  walk_end :
      (n : ℕ) (cs : List I)
      → smallest_loop comparator it 0 cs none ≡ none
      → All (λ c. it.valid c ≡ false) cs
      → Merged (suc n) (at_smallest cs) cs
  unfolding merge_walk merged_valid at_smallest current_child index_of
  walk_end n cs none_found invalid =
      let empty : lefts cs ≡ [] = lefts_invalid cs invalid in
      (
        [],
        at_smallest cs,
        rw none_found refl,
        rw none_found refl,
        rw empty (Perm.refl _),
        tt,
        λ key b. tt,
      )

  valid_of :
      (m : MergingIterator I) (c : I)
      → current_child m ≡ some c
      → merged_valid comparator it m ≡ it.valid c
  unfolding merged_valid
  valid_of m c e = rw (e, merged_valid) refl

  current_at :
      (cs : List I) (i : ℕ) (d : I)
      → smallest_loop comparator it 0 cs none ≡ some (i, d)
      → get_elem? cs i ≡ some d
      → current_child (at_smallest cs) ≡ some d
  unfolding at_smallest current_child index_of
  current_at cs i d found at = rw found at

  next_at :
      (cs : List I) (i : ℕ) (d : I)
      → smallest_loop comparator it 0 cs none ≡ some (i, d)
      → get_elem? cs i ≡ some d
      → it.valid d ≡ true
      → merged_next comparator it (at_smallest cs) ≡ some (at_smallest (set cs i (it.next d)))
  unfolding at_smallest index_of merged_next move_child turn_forward find_smallest
  next_at cs i d found at valid = simp (found, at, valid)

  one_step :
      (n : ℕ) (m m' last : MergingIterator I) (d : I) (r : List (Bytes × Bytes))
      → merged_valid comparator it m ≡ true
      → current_child m ≡ some d
      → merged_next comparator it m ≡ some m'
      → merge_walk comparator it n m' ≡ some (r, last)
      → merge_walk comparator it (suc n) m ≡ some ((it.key d, it.value d) ∷ r, last)
  unfolding merge_walk
  one_step n m m' last d r valid here stepped later = simp (valid, here, stepped, later)

  walk_step :
      (n : ℕ) (cs : List I) (i : ℕ) (d : I) (r : List (Bytes × Bytes)) (last : MergingIterator I)
      → smallest_loop comparator it 0 cs none ≡ some (i, d)
      → get_elem? cs i ≡ some d
      → it.valid d ≡ true
      → merge_walk comparator it n (at_smallest (set cs i (it.next d))) ≡ some (r, last)
      → merge_walk comparator it (suc n) (at_smallest cs) ≡ some ((it.key d, it.value d) ∷ r, last)
  walk_step n cs i d r last found at valid later =
      let here = current_at cs i d found at in
      one_step n (at_smallest cs) (at_smallest (set cs i (it.next d))) last d r
        (valid_of (at_smallest cs) d here ∙ valid) here (next_at cs i d found at valid) later

  walk_lem :
      (n : ℕ) (cs : List I)
      → length (lefts cs) ≤ n
      → AllAscending cs
      → Merged (suc n) (at_smallest cs) cs
  walk_lem zero cs size a = elim (smallest_cases comparator order it cs) [
    | inl (none_found, invalid) ↦ walk_end zero cs none_found invalid
    | inr (i, d, found, at, valid, least) ↦
        let (_, count) = lefts_move cs i d (it.next d) _ at (valid_left d (left d) refl valid) in
        absurd (omega (arith, count))
  ]
  walk_lem (suc n) cs size a = elim (smallest_cases comparator order it cs) [
    | inl (none_found, invalid) ↦ walk_end (suc n) cs none_found invalid
    | inr (i, d, found, at, valid, least) ↦
        let head = valid_left d (left d) refl valid in
        let (perm, count) = lefts_move cs i d (it.next d) _ at head in
        let (r, last, walked, ended, perm', ascending, bounds) =
          walk_lem n (set cs i (it.next d)) (omega (arith, count))
            (AllAscending-move cs i d (it.next d) _ at head a) in
        let low : Bound (it.key d) (lefts cs) = Least-Bound (it.key d) cs least a in
        let moved : (key : Bytes) → Bound key (lefts cs) → Bound key r =
          (λ key b. bounds key (Bound-move key cs i d (it.next d) _ at head b)) in
        (
          (it.key d, it.value d) ∷ r,
          last,
          walk_step (suc n) cs i d r last found at valid walked,
          ended,
          Perm.trans (Perm.cons _ perm') perm,
          (moved (it.key d) low, ascending),
          λ key b. (Bound-head key cs i d (it.next d) _ at head b, moved key b),
        )
  ]

  sought :
      (m : MergingIterator I)
      → merged_seek_to_first comparator it m ≡ at_smallest (map it.seek_to_first m.children)
  unfolding merged_seek_to_first at_smallest find_smallest
  sought m = refl

  -- Wherever the children have been, `seek_to_first` and the walk from there by `next` see what the
  -- children have from their own first entries on, all of it, in the order of the keys, and end, if the
  -- comparator is a total order, the children's entries ascend and their forward methods read them.
  pub merge_walk-seek_to_first :
      (m : MergingIterator I)
      → AllAscending (map it.seek_to_first m.children)
      → (r : List (Bytes × Bytes)) × (last : MergingIterator I) × (merge_walk comparator it
            (suc (length (lefts (map it.seek_to_first m.children))))
            (merged_seek_to_first comparator it m)
          ≡ some (r, last))
        × (merged_valid comparator it last ≡ false)
        × Perm r (lefts (map it.seek_to_first m.children))
        × IsAscending r
  merge_walk-seek_to_first m a =
      let cs = map it.seek_to_first m.children in
      let (r, last, walked, ended, perm, ascending, _) =
        walk_lem (length (lefts cs)) cs (omega arith) a in
      (r, last, rw (sought m) walked, ended, perm, ascending)
