-- ===== src/VersionSet/Version/Overlap/Restarts.antt =====
-- src/version_set/version_set.rs: the restarts of a scan of level 0 over a range with two ends.
use pulsearc_db.Base.{
  refl, ℕ, ◌+◌, ◌≤◌, ◌<◌, false, Bytes, List, [], ◌∷◌, ◌++◌, Option, some, ◌≡◌, arith, All,
  if◌then◌else◌, length, Bool, true, ◌||◌, sym, ◌∙◌, ap, append-nil, Bool-cases, inl, inr,
  append_assoc, suc, zero,
}
use pulsearc_db.Comparator.{Comparator}
use pulsearc_db.Comparator.Order.{IsTotalOrder}
use pulsearc_db.VersionSet.FileMetaData.{FileMetaData}
use pulsearc_db.VersionSet.Version.{
  Pass, finished, start_of, limit_of, is_lt, is_gt, restarted, scan, before_range, after_range,
  widen_begin, widen_end, rescan, overlapping,
}
use pulsearc_db.VersionSet.Version.Overlap.{
  Meets, Picks, select-Picks, select, key_or, HasKeys, outside,
}

module _ (user : Comparator) (order : IsTotalOrder user) where
  -- `a` does not lie behind `b`.
  abbrev pub NotBehind : Bytes → Bytes → Type 0
  NotBehind a b = is_gt (user.compare a b) ≡ false

  -- One key in front of the beginning, one behind the end: what a restart may still take in.
  abbrev weight : Bytes → Bytes → FileMetaData → ℕ
  weight begin end f =
      (if is_lt (user.compare (key_or (start_of f)) begin) then 1 else 0)
      + (if is_gt (user.compare (key_or (limit_of f)) end) then 1 else 0)

  measure : Bytes → Bytes → List FileMetaData → ℕ
  measure begin end [] = 0
  measure begin end (f ∷ files) = weight begin end f + measure begin end files

  measure-le :
      (begin end : Bytes) (files : List FileMetaData)
      → measure begin end files ≤ length files + length files
  unfolding measure
  measure-le begin end [] = omega arith
  measure-le begin end (f ∷ files) = ground (arith, measure-le begin end files)

  begin_shrinks :
      (begin begin' key : Bytes)
      → NotBehind begin' begin
      → (if is_lt (user.compare key begin') then 1 else 0)
        ≤ (if is_lt (user.compare key begin) then 1 else 0)
  begin_shrinks begin begin' key le =
      ground (arith, order.trans key begin' begin, order.equal begin' begin)

  end_grows :
      (end end' key : Bytes)
      → NotBehind end end'
      → (if is_gt (user.compare key end') then 1 else 0)
        ≤ (if is_gt (user.compare key end) then 1 else 0)
  end_grows end end' key le = ground (
    arith,
    order.trans end end' key,
    order.equal end end',
    order.flip key end',
    order.flip key end,
  )

  measure_mono :
      (begin end begin' end' : Bytes) (files : List FileMetaData)
      → NotBehind begin' begin
      → NotBehind end end'
      → measure begin' end' files ≤ measure begin end files
  unfolding measure
  measure_mono begin end begin' end' [] b e = omega arith
  measure_mono begin end begin' end' (f ∷ files) b e = omega (
    arith,
    begin_shrinks begin begin' (key_or (start_of f)) b,
    end_grows end end' (key_or (limit_of f)) e,
    measure_mono begin end begin' end' files b e,
  )

  -- The file lies between the two ends.
  abbrev pub Within : Bytes → Bytes → FileMetaData → Type 0
  Within begin end f = NotBehind begin (key_or (start_of f)) × NotBehind (key_or (limit_of f)) end

  -- A pass has taken what meets the range, all of which lies in it; or it restarts with a wider range
  -- that leaves less to take in.
  data Passed (begin end : Bytes) (files result : List FileMetaData) (pass : Option Pass)
      : Type 0 where
    stops :
        pass ≡ some (finished (result ++ select user (some begin) (some end) files))
        → All (Within begin end) (select user (some begin) (some end) files)
        → Passed begin end files result pass
    restarts :
        (begin' end' : Bytes)
        → pass ≡ some (restarted (some begin') (some end'))
        → NotBehind begin' begin
        → NotBehind end end'
        → measure begin' end' files < measure begin end files
        → Passed begin end files result pass

  -- What the scan does with a file whose keys are known, by the answers of the comparator.
  module _ (f : FileMetaData) (files result : List FileMetaData) (begin end : Bytes)
      (h : HasKeys f) where
    scan-outside :
        outside user (some begin) (some end) f ≡ true
        → scan user true (f ∷ files) result (some begin) (some end)
          ≡ scan user true files result (some begin) (some end)
    unfolding scan
    scan-outside out = rw (h.at_start, h.at_limit, seen out) refl
      where
        seen :
            outside user (some begin) (some end) f ≡ true
            → (before_range user h.limit (some begin) || after_range user h.start (some end)) ≡ true
        seen e = sym (rw (h.at_start, h.at_limit) refl) ∙ e

    scan_meets :
        (earlier later : Bool)
        → outside user (some begin) (some end) f ≡ false
        → is_lt (user.compare h.start begin) ≡ earlier
        → is_gt (user.compare h.limit end) ≡ later
        → scan user true (f ∷ files) result (some begin) (some end) ≡ (
            if earlier || later
            then some (
                restarted
                  (some (if earlier then h.start else begin))
                  (some (if later then h.limit else end)))
            else scan user true files (result ++ f ∷ []) (some begin) (some end))
    unfolding scan
    scan_meets earlier later meets e l =
        rw (h.at_start, h.at_limit, seen meets) (wider earlier later e l)
      where
        seen :
            outside user (some begin) (some end) f ≡ false
            → (before_range user h.limit (some begin) || after_range user h.start (some end))
              ≡ false
        seen e = sym (rw (h.at_start, h.at_limit) refl) ∙ e

        wider :
            (earlier later : Bool)
            → is_lt (user.compare h.start begin) ≡ earlier
            → is_gt (user.compare h.limit end) ≡ later
            → (if (widen_begin user h.start (some begin)).1 || (widen_end user h.limit (some end)).1
                then some (
                    restarted
                      (widen_begin user h.start (some begin)).0
                      (widen_end user h.limit (some end)).0)
                else scan user true files
                    (result ++ f ∷ [])
                    (widen_begin user h.start (some begin)).0
                    (widen_end user h.limit (some end)).0)
              ≡ (if earlier || later
                  then some (
                      restarted
                        (some (if earlier then h.start else begin))
                        (some (if later then h.limit else end)))
                  else scan user true files (result ++ f ∷ []) (some begin) (some end))
        wider true true e l = unfold widen_begin widen_end in rw (e, l) refl
        wider true false e l = unfold widen_begin widen_end in rw (e, l) refl
        wider false true e l = unfold widen_begin widen_end in rw (e, l) refl
        wider false false e l = unfold widen_begin widen_end in rw (e, l) refl

  start_weight :
      (f : FileMetaData) (begin end begin' end' : Bytes) (h : HasKeys f)
      → (earlier later : Bool) → is_lt (user.compare h.start begin) ≡ earlier
      → is_gt (user.compare h.limit end) ≡ later
      → earlier || later ≡ true
      → begin' ≡ (if earlier then h.start else begin)
      → end' ≡ (if later then h.limit else end)
      → NotBehind begin' begin × NotBehind end end' × (weight begin' end' f < weight begin end f)
  start_weight f begin end begin' end' h earlier later e l wider eb ee =
      rw (h.at_start, h.at_limit, eb, ee) (cases earlier later e l wider)
    where
      cases :
          (earlier later : Bool)
          → is_lt (user.compare h.start begin) ≡ earlier
          → is_gt (user.compare h.limit end) ≡ later
          → earlier || later ≡ true
          → NotBehind (if earlier then h.start else begin) begin
            × NotBehind end (if later then h.limit else end)
            × ((if is_lt (user.compare h.start (if earlier then h.start else begin)) then 1 else 0)
                  + (if is_gt (user.compare h.limit (if later then h.limit else end)) then 1 else 0)
                < (if is_lt (user.compare h.start begin) then 1 else 0)
                  + (if is_gt (user.compare h.limit end) then 1 else 0))
      cases true true e l w = (
        ground arith,
        ground (arith, order.flip h.limit end),
        ground (arith, order.self h.start, order.self h.limit),
      )
      cases true false e l w = (
        ground arith,
        ground (arith, order.self end),
        ground (arith, order.self h.start, order.self h.limit),
      )
      cases false true e l w = (
        ground (arith, order.self begin),
        ground (arith, order.flip h.limit end),
        ground (arith, order.self h.start, order.self h.limit),
      )
      cases false false e l w = cc

  scan_first_lem :
      (files result : List FileMetaData) (begin end : Bytes)
      → All HasKeys files
      → Passed begin end files result (scan user true files result (some begin) (some end))
  scan_first_lem [] result begin end h =
      stops (unfold scan select in ap (λ t. some (finished t)) (sym (append-nil result)))
        (unfold select in tt)
  scan_first_lem (f ∷ files) result begin end (h, hs) =
      elim (Bool-cases (outside user (some begin) (some end) f)) [
        | inl out ↦ skip out (scan_first_lem files result begin end hs)
        | inr meets ↦
            take_in (is_lt (user.compare h.start begin)) (is_gt (user.compare h.limit end)) meets
              refl refl (scan_first_lem files (result ++ f ∷ []) begin end hs)
      ]
    where
      skip :
          outside user (some begin) (some end) f ≡ true
          → Passed begin end files result (scan user true files result (some begin) (some end))
          → Passed begin end
              (f ∷ files)
              result
              (scan user true (f ∷ files) result (some begin) (some end))
      skip out (stops e w) =
          let same : select user (some begin) (some end) (f ∷ files)
              ≡ select user (some begin) (some end) files =
            unfold select in rw out refl in
          stops
            (scan-outside f files result begin end h out
              ∙ e
              ∙ ap (λ t. some (finished (result ++ t))) (sym same))
            (rw same w)
      skip out (restarts b' e' e mb me less) =
          restarts b' e' (scan-outside f files result begin end h out ∙ e) mb me (
            unfold measure in
            omega (
              arith,
              less,
              begin_shrinks begin b' (key_or (start_of f)) mb,
              end_grows end e' (key_or (limit_of f)) me,
            ))

      take_in :
          (earlier later : Bool)
          → outside user (some begin) (some end) f ≡ false
          → is_lt (user.compare h.start begin) ≡ earlier
          → is_gt (user.compare h.limit end) ≡ later
          → Passed begin end files
              (result ++ f ∷ [])
              (scan user true files (result ++ f ∷ []) (some begin) (some end))
          → Passed begin end
              (f ∷ files)
              result
              (scan user true (f ∷ files) result (some begin) (some end))
      take_in earlier later meets e l rest = elim (Bool-cases (earlier || later)) [
        | inl wider ↦
            let (mb, me, less) =
              start_weight f begin end (if earlier then h.start else begin)
                (if later then h.limit else end) h earlier later e l wider refl refl in
            restarts (if earlier then h.start else begin) (if later then h.limit else end)
              (scan_meets f files result begin end h earlier later meets e l ∙ rw wider refl) mb me
              (unfold measure in
                omega (
                  arith,
                  less,
                  measure_mono begin end (if earlier then h.start else begin)
                      (if later then h.limit else end) files mb me,
                ))
        | inr fits ↦ within earlier later meets e l fits rest
      ]
        where
          lies :
              (earlier later : Bool)
              → is_lt (user.compare h.start begin) ≡ earlier
              → is_gt (user.compare h.limit end) ≡ later
              → earlier || later ≡ false
              → Within begin end f
          lies true later e l fits = cc
          lies false true e l fits = cc
          lies false false e l fits =
              rw (h.at_start, h.at_limit) (ground (arith, order.flip h.start begin), l)

          within :
              (earlier later : Bool)
              → outside user (some begin) (some end) f ≡ false
              → is_lt (user.compare h.start begin) ≡ earlier
              → is_gt (user.compare h.limit end) ≡ later
              → earlier || later ≡ false
              → Passed begin end files
                  (result ++ f ∷ [])
                  (scan user true files (result ++ f ∷ []) (some begin) (some end))
              → Passed begin end
                  (f ∷ files)
                  result
                  (scan user true (f ∷ files) result (some begin) (some end))
          within earlier later meets e l fits (stops done w) =
              let same : select user (some begin) (some end) (f ∷ files)
                  ≡ f ∷ select user (some begin) (some end) files =
                unfold select in rw meets refl in
              stops
                (scan_meets f files result begin end h earlier later meets e l
                  ∙ rw fits done
                  ∙ ap (λ t. some (finished t))
                      (append_assoc result (f ∷ []) (select user (some begin) (some end) files)
                        ∙ ap (λ t. result ++ t) (sym same)))
                (rw same (lies earlier later e l fits, w))
          within earlier later meets e l fits (restarts b' e' done mb me less) =
              restarts b' e'
                (scan_meets f files result begin end h earlier later meets e l ∙ rw fits done) mb me
                (unfold measure in
                  omega (
                    arith,
                    less,
                    begin_shrinks begin b' (key_or (start_of f)) mb,
                    end_grows end e' (key_or (limit_of f)) me,
                  ))

  -- The answer for a range, perhaps wider than the one asked for: all files that meet it, and all of
  -- them lie in it.
  pub record IsClosed (begin end : Bytes) (files result : List FileMetaData) : Type 0 where
    pub first : Bytes
    pub last : Bytes
    pub first_le : NotBehind first begin
    pub last_ge : NotBehind end last
    pub selected : result ≡ select user (some first) (some last) files
    pub picked : Picks (Meets user (some first) (some last)) files result
    pub closed : All (Within first last) result

  NotBehind-trans : (a b c : Bytes) → NotBehind a b → NotBehind b c → NotBehind a c
  NotBehind-trans a b c p q = ground (
    arith,
    order.flip a b,
    order.flip b c,
    order.flip a c,
    order.trans c a b,
    order.trans b c a,
    order.trans c b a,
    order.equal a b,
    order.equal b c,
    order.equal a c,
  )

  rescan_lem :
      (rounds : ℕ) (files : List FileMetaData) (begin end : Bytes)
      → All HasKeys files
      → measure begin end files < rounds
      → (r : List FileMetaData) × (rescan user rounds true files (some begin) (some end) ≡ some r)
        × IsClosed begin end files r
  unfolding rescan
  rescan_lem zero files begin end h enough = absurd (omega arith)
  rescan_lem (suc rounds) files begin end h enough = elim (scan_first_lem files [] begin end h) [
    | stops done w ↦ (
      select user (some begin) (some end) files,
      rw done refl,
      record {
        first = begin;
        last = end;
        first_le = ground (arith, order.self begin);
        last_ge = ground (arith, order.self end);
        selected = refl;
        picked = select-Picks user files (some begin) (some end) h;
        closed = w;
      },
    )
    | restarts b' e' done mb me less ↦
        let (r, found, c) = rescan_lem rounds files b' e' h (omega arith) in
        (
          r,
          rw done found,
          record {
            first = c.first;
            last = c.last;
            first_le = NotBehind-trans c.first b' begin c.first_le mb;
            last_ge = NotBehind-trans end e' c.last me c.last_ge;
            selected = c.selected;
            picked = c.picked;
            closed = c.closed;
          },
        )
  ]

  -- On level 0 the scan of a range with two ends comes to an end within the restarts it is given and
  -- returns, for a range at least as wide, exactly the files that meet it, none of which reaches out of
  -- it, if the keys of the files are long enough to hold user keys.
  pub overlapping_first :
      (files : List FileMetaData) (begin end : Bytes)
      → All HasKeys files
      → (r : List FileMetaData) × (overlapping user true files (some begin) (some end) ≡ some r)
        × IsClosed begin end files r
  unfolding overlapping
  overlapping_first files begin end h =
      rescan_lem (suc (length files + length files)) files begin end h
        (omega (arith, measure-le begin end files))
