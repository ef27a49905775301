-- ===== src/VersionSet/Lookup/Charge.antt =====
-- src/version_set/version_set.rs: `Version::get` and the seek allowances.
use pulsearc_db.Base.{
  ℕ, zero, suc, ◌+◌, ◌-◌, false, Bytes, List, [], ◌∷◌, Option, none, some, get_elem?, ◌≡◌, refl,
  ◌∙◌, ap, ◌⊎◌, inl, inr, Option-cases, Bool-cases,
}
use pulsearc_db.Base.Options.{◌>>=◌}
use pulsearc_db.Base.Sort.{sort_by}
use pulsearc_db.Result.{Result, ok, err, panicked}
use pulsearc_db.Comparator.{Comparator}
use pulsearc_db.Format.{num_levels}
use pulsearc_db.VersionSet.FileMetaData.{FileMetaData}
use pulsearc_db.VersionSet.Seeks.{Seeks, decrement_seek_allowance, candidate}
use pulsearc_db.VersionSet.Lookup.{
  LookupResult, found, not_found, deleted, Reading, Answer, charge, visit_file, answer, covering,
  get_first, get_deeper, get, by_newest, ask_candidate, ask_first,
}

-- The seek state is the old one, or one file has been charged.
abbrev pub AtMostOne : Seeks → Seeks → Type 0
AtMostOne s s' =
    (s' ≡ s) ⊎ ((level : ℕ) × (number : ℕ) × (s' ≡ (decrement_seek_allowance level number s).0))

-- The same while the files are read: only a charge makes the flag true.
abbrev IsCharged : Seeks → Reading → Type 0
IsCharged s r = AtMostOne s r.seeks × (r.charged_seek_file ≡ false → r.seeks ≡ s)

charge_lem : (s : Seeks) (r : Reading) → r.seeks ≡ s → IsCharged s (charge r)
unfolding charge
charge_lem s r same = elim (Option-cases r.last_file_read) [
  | inl absent ↦ rw absent (inl same, λ _. same)
  | inr ((level, number), there) ↦ rw there (
    inr (level, number, ap (λ t. (decrement_seek_allowance level number t).0) same),
    λ e. absurd (cc e),
  )
]

visit_lem :
    (s : Seeks) (level number : ℕ) (r : Reading)
    → IsCharged s r
    → IsCharged s (visit_file level number r)
unfolding visit_file
visit_lem s level number r (one, fresh) = elim (Bool-cases r.charged_seek_file) [
  | inl before ↦ simp before (one, λ e. fresh (before ∙ e))
  | inr first ↦ simp first (charge_lem s r (fresh first))
]

module _ (s : Seeks) where
  -- A search that charges at most one file, if what came before it did.
  abbrev Charges : (Reading → Answer) → Type 0
  Charges next = (r : Reading) → IsCharged s r → AtMostOne s (next r).0

  answer_lem :
      (a : Result LookupResult) (r : Reading) (next : Reading → Answer)
      → IsCharged s r
      → Charges next
      → AtMostOne s (answer a r next).0
  unfolding answer
  answer_lem panicked r next h later = h.0
  answer_lem (err e) r next h later = h.0
  answer_lem (ok (found v)) r next h later = h.0
  answer_lem (ok deleted) r next h later = h.0
  answer_lem (ok not_found) r next h later = later r h

  module _ (user : Comparator) (lookup : ℕ → Bytes → Result LookupResult)
      (key internal_key : Bytes) where
    get_first_lem :
        (fs : List FileMetaData) (next : Reading → Answer)
        → Charges next
        → Charges (λ r. get_first user lookup fs internal_key r next)
    unfolding get_first
    get_first_lem [] next later r h = later r h
    get_first_lem (f ∷ fs) next later r h =
        answer_lem (lookup f.number internal_key) (visit_file 0 f.number r) _
          (visit_lem s 0 f.number r h) (λ r' h'. get_first_lem fs next later r' h')

    ask_candidate_lem :
        (level : ℕ) (c : Option (Option FileMetaData)) (next : Reading → Answer)
        → Charges next
        → Charges (λ r. ask_candidate user lookup level internal_key c r next)
    unfolding ask_candidate
    ask_candidate_lem level none next later r h = h.0
    ask_candidate_lem level (some none) next later r h = later r h
    ask_candidate_lem level (some (some f)) next later r h =
        answer_lem (lookup f.number internal_key) (visit_file level f.number r) next
          (visit_lem s level f.number r h) later

    get_deeper_lem :
        (left level : ℕ) (files : List (List FileMetaData))
        → Charges (get_deeper user lookup left level key internal_key files)
    unfolding get_deeper
    get_deeper_lem zero level files r h = h.0
    get_deeper_lem (suc left) level files r h =
        ask_candidate_lem level
          (get_elem? files level >>= λ level_files. candidate user key internal_key level_files) _
          (get_deeper_lem left (level + 1) files) r h

    ask_first_lem :
        (c : Option (List FileMetaData)) (next : Reading → Answer)
        → Charges next
        → Charges (λ r. ask_first user lookup internal_key c r next)
    unfolding ask_first
    ask_first_lem none next later r h = h.0
    ask_first_lem (some l0) next later r h = get_first_lem l0 next later r h

    -- Whatever the files hold and however their reads end, a lookup leaves the seek allowances as they
    -- are, or charges one file, once.
    pub get-AtMostOne :
        (files : List (List FileMetaData))
        → AtMostOne s (get user lookup files key internal_key s).0
    unfolding get
    get-AtMostOne files =
        ask_first_lem
          (get_elem? files 0 >>= λ level0.
            covering user lookup key level0 >>= λ l0. sort_by by_newest l0)
          _ (get_deeper_lem (num_levels - 1) 1 files)
          (record { seeks = s; last_file_read = none; charged_seek_file = false })
          (inl refl, λ _. refl)
