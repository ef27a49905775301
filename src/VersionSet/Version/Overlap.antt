-- ===== src/VersionSet/Version/Overlap.antt =====
-- src/version_set/version_set.rs: `get_overlapping_inputs`, whose scan of level 0 starts again when a
-- file has widened the range.
pub mod Restarts
pub mod OpenRange
use Prim.Native.Nat.{Ordering}
use pulsearc_db.Base.{
  ℕ, ◌+◌, ◌≤◌, Bool, true, false, Bytes, List, [], ◌∷◌, ◌++◌, Option, none, some, ◌≡◌, ◌≢◌, refl,
  arith, inl, inr, All, Bool-cases, if◌then◌else◌, ◌||◌, append_assoc, append-nil, ap, sym, ◌∙◌,
  ◌⊎◌,
}
use pulsearc_db.Comparator.{Comparator}
use pulsearc_db.VersionSet.FileMetaData.{FileMetaData}
use pulsearc_db.VersionSet.Version.{
  Pass, finished, scan, rescan, overlapping, before_range, after_range, start_of, limit_of, is_lt,
  is_gt,
}

-- The two keys of the file are long enough to hold a user key.
pub record HasKeys (f : FileMetaData) : Type 0 where
  pub start : Bytes
  pub limit : Bytes
  pub at_start : start_of f ≡ some start
  pub at_limit : limit_of f ≡ some limit

abbrev pub key_or : Option Bytes → Bytes
key_or none = []
key_or (some key) = key

-- The file's range of user keys and the given one, either end of which may be open, do not meet.
abbrev pub outside : Comparator → Option Bytes → Option Bytes → FileMetaData → Bool
outside user begin end f =
    before_range user (key_or (limit_of f)) begin || after_range user (key_or (start_of f)) end

-- The files that meet the range, in their order.
unfoldable pub select :
    Comparator → Option Bytes → Option Bytes → List FileMetaData → List FileMetaData
select user begin end [] = []
select user begin end (f ∷ files) =
    if outside user begin end f
    then select user begin end files
    else f ∷ select user begin end files

-- The file's keys lie in front of no end of the range and behind none: its largest user key is not below
-- the beginning, if there is one, and its smallest is not above the end.
pub record Meets (user : Comparator) (begin end : Option Bytes) (f : FileMetaData) : Type 0 where
  pub reaches :
      (limit first : Bytes)
      → limit_of f ≡ some limit
      → begin ≡ some first
      → user.compare limit first ≢ Ordering.lt
  pub starts :
      (start last : Bytes)
      → start_of f ≡ some start
      → end ≡ some last
      → user.compare start last ≢ Ordering.gt

-- The second list is what the first has of the elements with a property, in their order.
pub data Picks {ℓ} {A : Type ℓ} (P : A → Type 0) : List A → List A → Type ℓ where
  nothing : Picks P [] []
  taken : {x : A} {xs ys : List A} → P x → Picks P xs ys → Picks P (x ∷ xs) (x ∷ ys)
  left_out : {x : A} {xs ys : List A} → ¬ P x → Picks P xs ys → Picks P (x ∷ xs) ys

module _ (user : Comparator) where
  scan_below_lem :
      (files result : List FileMetaData) (begin end : Option Bytes)
      → All HasKeys files
      → scan user false files result begin end
        ≡ some (finished (result ++ select user begin end files))
  unfolding scan select
  scan_below_lem [] result begin end h = ap (λ t. some (finished t)) (sym (append-nil result))
  scan_below_lem (f ∷ files) result begin end (h, hs) =
      elim (Bool-cases (outside user begin end f)) [
        | inl out ↦
            rw (h.at_start, h.at_limit, seen h out) (scan_below_lem files result begin end hs)
        | inr meets ↦
            rw (h.at_start, h.at_limit, seen h meets)
              (scan_below_lem files (result ++ f ∷ []) begin end hs
                ∙ ap (λ t. some (finished t))
                    (append_assoc result (f ∷ []) (select user begin end files)))
      ]
    where
      seen :
          {b : Bool} (k : HasKeys f)
          → outside user begin end f ≡ b
          → (before_range user k.limit begin || after_range user k.start end) ≡ b
      seen k e = sym (rw (k.at_start, k.at_limit) refl) ∙ e

  -- The tests of the code, by what they say of the comparator.
  before-Meets :
      (limit : Bytes) (begin : Option Bytes)
      → before_range user limit begin ≡ true
      → (first : Bytes) × (begin ≡ some first) × (user.compare limit first ≡ Ordering.lt)
  unfolding before_range
  before-Meets limit none h = cc
  before-Meets limit (some first) h = (first, refl, is_lt_lem (user.compare limit first) h)
    where
      is_lt_lem : (o : Ordering) → is_lt o ≡ true → o ≡ Ordering.lt
      is_lt_lem Ordering.lt h = refl
      is_lt_lem Ordering.eq h = cc
      is_lt_lem Ordering.gt h = cc

  after-Meets :
      (start : Bytes) (end : Option Bytes)
      → after_range user start end ≡ true
      → (last : Bytes) × (end ≡ some last) × (user.compare start last ≡ Ordering.gt)
  unfolding after_range
  after-Meets start none h = cc
  after-Meets start (some last) h = (last, refl, is_gt_lem (user.compare start last) h)
    where
      is_gt_lem : (o : Ordering) → is_gt o ≡ true → o ≡ Ordering.gt
      is_gt_lem Ordering.lt h = cc
      is_gt_lem Ordering.eq h = cc
      is_gt_lem Ordering.gt h = refl

  inside-Meets :
      (f : FileMetaData) (begin end : Option Bytes)
      → outside user begin end f ≡ false
      → Meets user begin end f
  unfolding before_range after_range
  inside-Meets f begin end h = record {
    reaches = λ limit first at e below.
        neither (before_range user (key_or (limit_of f)) begin) _ h
          (inl (rw (at, e) (ap is_lt below)));
    starts = λ start last at e above.
        neither (before_range user (key_or (limit_of f)) begin) _ h
          (inr (rw (at, e) (ap is_gt above)));
  }
    where
      neither : (a b : Bool) → a || b ≡ false → (a ≡ true) ⊎ (b ≡ true) → ⊥
      neither true b h e = cc
      neither false b h (inl e) = cc
      neither false b h (inr e) = cc

  outside-Meets :
      (f : FileMetaData) (begin end : Option Bytes)
      → HasKeys f
      → outside user begin end f ≡ true
      → ¬ Meets user begin end f
  outside-Meets f begin end k h m =
      elim (Bool-cases (before_range user (key_or (limit_of f)) begin)) [
        | inl before ↦
            let (first, at, below) = before-Meets (key_or (limit_of f)) begin before in
            m.reaches (key_or (limit_of f)) first (rw k.at_limit refl) at below
        | inr within ↦
            let (last, at, above) =
              after-Meets (key_or (start_of f)) end (ground (arith, h, within)) in
            m.starts (key_or (start_of f)) last (rw k.at_start refl) at above
      ]

  pub select-Picks :
      (files : List FileMetaData) (begin end : Option Bytes)
      → All HasKeys files
      → Picks (Meets user begin end) files (select user begin end files)
  unfolding select
  select-Picks [] begin end h = nothing
  select-Picks (f ∷ files) begin end (k, h) = elim (Bool-cases (outside user begin end f)) [
    | inl out ↦ rw out (left_out (outside-Meets f begin end k out) (select-Picks files begin end h))
    | inr meets ↦ rw meets (taken (inside-Meets f begin end meets) (select-Picks files begin end h))
  ]

  -- Below level 0 exactly the files are returned that meet the range, in their order, whichever end is
  -- open: those with the largest user key not below the beginning, and the smallest not above the end.
  -- The keys of the level's files are long enough to hold user keys.
  pub overlapping_below :
      (files : List FileMetaData) (begin end : Option Bytes)
      → All HasKeys files
      → (r : List FileMetaData) × (overlapping user false files begin end ≡ some r)
        × Picks (Meets user begin end) files r
  unfolding overlapping rescan
  overlapping_below files begin end h = (
    select user begin end files,
    rw (scan_below_lem files [] begin end h) refl,
    select-Picks files begin end h,
  )
