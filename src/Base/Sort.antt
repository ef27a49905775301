-- ===== src/Base/Sort.antt =====
-- `sort_by`: a stable sort by a comparison that may panic (`none`).
use Prim.Native.Nat.{Ordering}
use mathlib.Core.List.{Perm}
use mathlib.Core.List.Perm
use mathlib.Core.Path.{◌≡◌, refl, subst}
use mathlib.Core.Logic.{◌≢◌, ◌⊎◌, inl, inr}
use mathlib.Core.Option.{Option, some}
use mathlib.Core.List.{List, [], ◌∷◌}
use pulsearc_db.Base.Lists.{All}
use pulsearc_db.Base.Options.{◌>>=◌, >>=-eq-some}
use pulsearc_db.Base.{◌⊎◌}

module _ {ℓ} {A : Type ℓ} (cmp : A → A → Option Ordering) where
  -- An element goes in front of those that are not below it.
  unfoldable pub insert_sorted : A → List A → Option (List A)
  insert_sorted a [] = some (a ∷ [])
  insert_sorted a (b ∷ bs) =
      let further = insert_sorted a bs >>= λ rest. some (b ∷ rest) in
      cmp a b >>= λ o. elim o [ Ordering.gt ↦ further | _ ↦ some (a ∷ b ∷ bs) ]

  unfoldable pub sort_by : List A → Option (List A)
  sort_by [] = some []
  sort_by (a ∷ as') = sort_by as' >>= λ rest. insert_sorted a rest

  -- An answer of the comparison that lets `a` stand in front of `b`.
  abbrev pub Before : A → A → Type 0
  Before a b = (o : Ordering) × (cmp a b ≡ some o) × (o ≢ Ordering.gt)

  abbrev pub IsSorted : List A → Type 0
  IsSorted [] = Unit
  IsSorted (a ∷ rest) = All (Before a) rest × IsSorted rest

  -- What a sort relies on, for the elements that are `fine`: an answer for any two elements, one of the
  -- two orders, and transitivity.
  pub record IsOrder (fine : A → Type 0) : Type ℓ where
    pub answers : (a b : A) → fine a → fine b → (o : Ordering) × (cmp a b ≡ some o)
    pub turns : (a b : A) → fine a → fine b → cmp a b ≡ some Ordering.gt → Before b a
    pub joins : (a b c : A) → fine a → fine b → fine c → Before a b → Before b c → Before a c

  module _ (fine : A → Type 0) (order : IsOrder fine) where
    All-Before :
        (a b : A) (rest : List A)
        → fine a
        → fine b
        → All fine rest
        → Before a b
        → All (Before b) rest
        → All (Before a) rest
    All-Before a b [] fa fb fr h later = tt
    All-Before a b (c ∷ rest) fa fb (fc, fr) h (first, later) =
        (order.joins a b c fa fb fc h first, All-Before a b rest fa fb fr h later)

    -- The element is put in its place, behind what stood before it and before them all.
    abbrev Inserted : A → List A → Type ℓ
    Inserted a bs =
        (r : List A) × (insert_sorted a bs ≡ some r)
        × Perm r (a ∷ bs)
        × All fine r
        × IsSorted r
        × ((b : A) → fine b → Before b a → All (Before b) bs → All (Before b) r)

    insert_sorted_lem : (a : A) (bs : List A) → fine a → All fine bs → IsSorted bs → Inserted a bs
    unfolding insert_sorted
    insert_sorted_lem a [] fa fb s =
        (a ∷ [], refl, Perm.refl _, (fa, tt), (tt, tt), λ b _ h _. (h, tt))
    insert_sorted_lem a (b ∷ bs) fa (fb, fbs) (sb, s) =
        let (o, answer) = order.answers a b fa fb in
        place o answer (insert_sorted_lem a bs fa fbs s)
      where
        stays : (o : Ordering) → cmp a b ≡ some o → o ≢ Ordering.gt → All (Before a) (b ∷ bs)
        stays o answer h = ((o, answer, h), All-Before a b bs fa fb fbs (o, answer, h) sb)

        place : (o : Ordering) → cmp a b ≡ some o → Inserted a bs → Inserted a (b ∷ bs)
        place Ordering.lt answer further = (
          a ∷ b ∷ bs,
          rw answer refl,
          Perm.refl _,
          (fa, (fb, fbs)),
          (stays Ordering.lt answer (λ e. cc e), (sb, s)),
          λ c _ h k. (h, k),
        )
        place Ordering.eq answer further = (
          a ∷ b ∷ bs,
          rw answer refl,
          Perm.refl _,
          (fa, (fb, fbs)),
          (stays Ordering.eq answer (λ e. cc e), (sb, s)),
          λ c _ h k. (h, k),
        )
        place Ordering.gt answer further =
            let (r, found, perm, fr, sr, front) = further in
            (
              b ∷ r,
              rw (answer, found) refl,
              Perm.trans (Perm.cons b perm) (Perm.swap a b bs),
              (fb, fr),
              (front b fb (order.turns a b fa fb answer) sb, sr),
              λ c fc h k. (k.0, front c fc h k.1),
            )

    -- On fine elements the sort does not panic, and it puts the same elements in order.
    pub sort_by_lem :
        (xs : List A)
        → All fine xs
        → (r : List A) × (sort_by xs ≡ some r) × Perm r xs × All fine r × IsSorted r
    unfolding sort_by
    sort_by_lem [] h = ([], refl, Perm.refl _, tt, tt)
    sort_by_lem (a ∷ xs) (fa, h) =
        let (r, found, perm, fr, sr) = sort_by_lem xs h in
        let (r', found', perm', fr', sr', _) = insert_sorted_lem a r fa fr sr in
        (r', rw found found', Perm.trans perm' (Perm.cons a perm), fr', sr')

-- Some element has the property.
abbrev pub Any {ℓ} : {A : Type ℓ} → (A → Type 0) → List A → Type 0
Any P [] = ⊥
Any P (x ∷ xs) = P x ⊎ Any P xs

some_eq {ℓ} : {A : Type ℓ} {a b : A} → some a ≡ some b → a ≡ b
some_eq e = cc e

module _ {ℓ} {A : Type ℓ} (cmp : A → A → Option Ordering) (P : A → Type 0) where
  insert_sorted-Any :
      (a : A) (bs r : List A) → insert_sorted cmp a bs ≡ some r → P a ⊎ Any P bs → Any P r
  unfolding insert_sorted
  insert_sorted-Any a [] r e h = subst (Any P) (some_eq e) h
  insert_sorted-Any a (b ∷ bs) r e h =
      let (o, answer, e') = >>=-eq-some (cmp a b) _ e in place (insert_sorted-Any a bs) o e' h
    where
      front : some (a ∷ b ∷ bs) ≡ some r → P a ⊎ Any P (b ∷ bs) → Any P r
      front e h = subst (Any P) (some_eq e) h

      place :
          ((rest : List A) → insert_sorted cmp a bs ≡ some rest → P a ⊎ Any P bs → Any P rest)
          → (o : Ordering)
          → (elim o [
            | Ordering.gt ↦ (insert_sorted cmp a bs >>= λ rest. some (b ∷ rest))
            | _ ↦ some (a ∷ b ∷ bs)
          ])
            ≡ some r
          → P a ⊎ Any P (b ∷ bs)
          → Any P r
      place further Ordering.lt e h = front e h
      place further Ordering.eq e h = front e h
      place further Ordering.gt e h =
          let (rest, found, e') = >>=-eq-some (insert_sorted cmp a bs) _ e in
          let later = further rest found in
          subst (Any P) (some_eq e') (elim h [
            | inl pa ↦ inr (later (inl pa))
            | inr (inl pb) ↦ inl pb
            | inr (inr pbs) ↦ inr (later (inr pbs))
          ])

  -- What holds of some element holds of some element behind the sort.
  pub sort_by-Any : (xs r : List A) → sort_by cmp xs ≡ some r → Any P xs → Any P r
  unfolding sort_by
  sort_by-Any [] r e h = absurd h
  sort_by-Any (x ∷ xs) r e h =
      let (rest, sorted, e') = >>=-eq-some (sort_by cmp xs) _ e in
      insert_sorted-Any x rest r e'
        (elim h [ inl px ↦ inl px | inr later ↦ inr (sort_by-Any xs rest sorted later) ])
