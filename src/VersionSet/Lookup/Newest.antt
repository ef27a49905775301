-- ===== src/VersionSet/Lookup/Newest.antt =====
-- src/version_set/version_set.rs: `Version::get` and the files of level 0.
use Prim.Native.Nat.{compare}
use pulsearc_db.Base.{
  ℕ, ◌<◌, Bool, true, false, Bytes, List, [], ◌∷◌, Option, none, some, get_elem?, All, ◌≡◌, refl,
  sym, ◌∙◌, ap, ◌⊎◌, inl, inr, arith, Bool-cases, ltb, ltb→lt, ltb→le,
}
use pulsearc_db.Base.Sort.{IsSorted, Before, IsOrder, sort_by_lem, Any, sort_by-Any}
use pulsearc_db.Result.{Result, ok}
use pulsearc_db.Comparator.{Comparator}
use pulsearc_db.VersionSet.FileMetaData.{FileMetaData}
use pulsearc_db.VersionSet.Version.Overlap.{HasKeys}
use pulsearc_db.VersionSet.Compaction.{covers}
use pulsearc_db.VersionSet.Seeks.{Seeks}
use pulsearc_db.VersionSet.Lookup.{
  LookupResult, found, not_found, deleted, Reading, Answer, visit_file, answer, covering, get_first,
  get, by_newest, ask_first,
}
use pulsearc_db.VersionSet.Builder.Saved.{le_of_compare}

-- What a file holds of the key decides the answer.
abbrev pub Decides : LookupResult → Option Bytes → Type 0
Decides (found v) answer = answer ≡ some v
Decides not_found answer = ⊥
Decides deleted answer = answer ≡ none

module _ (user : Comparator) (lookup : ℕ → Bytes → Result LookupResult) (key internal_key : Bytes)
    (newest : ℕ) where
  -- The file has not the key, if it is newer.
  abbrev IsPassed : FileMetaData → Type 0
  IsPassed g = newest < g.number → lookup g.number internal_key ≡ ok not_found

  -- The files are newest first.
  by_newest-IsOrder : IsOrder by_newest IsPassed
  unfolding by_newest
  by_newest-IsOrder = record {
    answers = λ a b fa fb. (compare b.number a.number, refl);
    turns = λ a b fa fb gt. (compare a.number b.number, refl, λ e. ground (arith, gt, e));
    joins = λ a b c fa fb fc (o, p, h) (o', p', h'). (
      compare c.number a.number,
      refl,
      λ e. ground (
        arith,
        e,
        le_of_compare b.number a.number o p h,
        le_of_compare c.number b.number o' p' h',
      ),
    );
  }

  answer_decided :
      (a : LookupResult) (w : Option Bytes) (r : Reading) (next : Reading → Answer)
      → Decides a w
      → (answer (ok a) r next).1 ≡ ok w
  unfolding answer
  answer_decided (found v) w r next d = ap ok (sym d)
  answer_decided not_found w r next d = absurd d
  answer_decided deleted w r next d = ap ok (sym d)

  order_cases : (m n : ℕ) → ((m ≡ n) ⊎ (n < m)) ⊎ (m < n)
  order_cases m n = elim (Bool-cases (ltb m n)) [
    | inl less ↦ inr (ltb→lt m n less)
    | inr more ↦ elim (Bool-cases (ltb n m)) [
      | inl newer ↦ inl (inr (ltb→lt n m newer))
      | inr same ↦ inl (inl (omega (arith, ltb→le m n more, ltb→le n m same)))
    ]
  ]

  not_older :
      (g : FileMetaData) (fs : List FileMetaData)
      → All (Before by_newest g) fs
      → g.number < newest
      → Any (λ h. h.number ≡ newest) fs
      → ⊥
  unfolding by_newest
  not_older g [] front older there = there
  not_older g (h ∷ fs) ((o, e, not_gt), front) older there = elim there [
    | inl is ↦ omega (arith, le_of_compare h.number g.number o e not_gt)
    | inr later ↦ not_older g fs front older later
  ]

  covers_cases :
      (g : FileMetaData)
      → HasKeys g
      → (covers user key g ≡ some true) ⊎ (covers user key g ≡ some false)
  unfolding covers
  covers_cases g h = rw (h.at_start, h.at_limit) (either _)
    where
      either : (b : Bool) → (some b ≡ some true) ⊎ (some b ≡ some false)
      either true = inl refl
      either false = inr refl

  get_first_lem :
      (fs : List FileMetaData) (a : LookupResult) (w : Option Bytes) (r : Reading)
      (next : Reading → Answer)
      → lookup newest internal_key ≡ ok a
      → Decides a w
      → All IsPassed fs
      → IsSorted by_newest fs
      → Any (λ g. g.number ≡ newest) fs
      → (get_first user lookup fs internal_key r next).1 ≡ ok w
  unfolding get_first answer
  get_first_lem [] a w r next at d passed sorted there = absurd there
  get_first_lem (g ∷ fs) a w r next at d (pass, passed) (front, sorted) there =
      elim (order_cases g.number newest) [
        | inl (inl same) ↦
            rw (ap (λ n. lookup n internal_key) same ∙ at)
              (answer_decided a w (visit_file 0 g.number r) _ d)
        | inl (inr newer) ↦ rw (pass newer) (
            get_first_lem fs a w (visit_file 0 g.number r) next at d passed sorted
              (elim there [ inl is ↦ absurd (omega arith) | inr later ↦ later ]))
        | inr older ↦
            absurd
              (elim there [ inl is ↦ omega arith | inr later ↦ not_older g fs front older later ])
      ]

  covering_lem :
      (level0 : List FileMetaData)
      → All HasKeys level0
      → All (λ g. covers user key g ≡ some true → IsPassed g) level0
      → (l0 : List FileMetaData) × (covering user lookup key level0 ≡ some l0)
        × All IsPassed l0
        × ((Any (λ g. (g.number ≡ newest) × (covers user key g ≡ some true)) level0)
            → Any (λ g. g.number ≡ newest) l0)
  unfolding covering
  covering_lem [] h p = ([], refl, tt, λ there. there)
  covering_lem (g ∷ level0) (hg, h) (pg, p) =
      let (l0, rest, passed, carry) = covering_lem level0 h p in
      elim (covers_cases g hg) [
        | inl hit ↦ (
          g ∷ l0,
          rw (hit, rest) refl,
          (pg hit, passed),
          λ there. elim there [ inl (is, _) ↦ inl is | inr later ↦ inr (carry later) ],
        )
        | inr miss ↦ (
          l0,
          rw (miss, rest) refl,
          passed,
          λ there. elim there [
            | inl (_, hit) ↦ absurd (cc (sym hit ∙ miss))
            | inr later ↦ carry later
          ],
        )
      ]

  -- The newest of the files of level 0 that cover the key and hold something of it decides the answer:
  -- where every file of a higher number that covers the key has not the key, the value of a file is
  -- returned, and none for a deletion, whatever the older files and the deeper levels hold. The keys of
  -- level 0 are long enough to hold user keys.
  pub get-newest :
      (files : List (List FileMetaData)) (level0 : List FileMetaData) (s : Seeks) (a : LookupResult)
      (w : Option Bytes)
      → get_elem? files 0 ≡ some level0
      → All HasKeys level0
      → Any (λ g. (g.number ≡ newest) × (covers user key g ≡ some true)) level0
      → All (λ g. covers user key g ≡ some true → IsPassed g) level0
      → lookup newest internal_key ≡ ok a
      → Decides a w
      → (get user lookup files key internal_key s).1 ≡ ok w
  unfolding get ask_first
  get-newest files level0 s a w first keys there passed at d =
      let (l0, covered, fine, carry) = covering_lem level0 keys passed in
      let (r, sorted, _, fine', order) = sort_by_lem by_newest IsPassed by_newest-IsOrder l0 fine in
      rw (first, covered, sorted)
        (get_first_lem r a w _ _ at d fine' order
          (sort_by-Any by_newest (λ g. g.number ≡ newest) l0 r sorted (carry there)))
