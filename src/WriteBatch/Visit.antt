-- ===== src/WriteBatch/Visit.antt =====
-- The two decoders of a record, and what a successful iteration says of the bytes.
use pulsearc_db.Base.{
  ℕ, zero, suc, Bytes, [], ◌∷◌, length, ◌<◌, ◌^◌, ◌≡◌, refl, List, arith, sym, ◌+◌, ◌∙◌, ◌%◌, inl,
  ap, inr, drop, Bool-cases, ltb,
}
use pulsearc_db.Result.{Result, ok, err, panicked, ◌>>=◌, >>=-eq-ok, Result-cases}
use pulsearc_db.WriteBatch.{
  WriteBatchRecord, Handler, decode_record, visit, visit_tagged, decode_tagged, iterate_loop,
  check_count, iterate, WriteBatch, count,
}
use pulsearc_db.WriteBatch.Records.{handle, handle_all}

-- On any bytes `visit` accepts what `decode_from` accepts, fails as it fails, and hands the record to
-- the visitor.
pub visit-decode_record {ℓ} :
    {S : Type ℓ} (h : Handler S) (input : Bytes) (s : S)
    → visit h input s ≡ (decode_record input >>= λ (r, rest). ok (rest, handle h s r))
unfolding visit decode_record visit_tagged decode_tagged handle
visit-decode_record h [] s = ground arith
visit-decode_record h (zero ∷ input) s = ground arith
visit-decode_record h (suc zero ∷ input) s = ground arith
visit-decode_record h (suc (suc other) ∷ input) s = ground arith

-- Bytes that are the concatenation of encodings, as `decode_from` reads them.
pub data Decodes : Bytes → List WriteBatchRecord → Type 0 where
  nothing : Decodes [] []
  one_more :
      {input rest : Bytes} {r : WriteBatchRecord} {rs : List WriteBatchRecord}
      → decode_record input ≡ ok (r, rest)
      → Decodes rest rs
      → Decodes input (r ∷ rs)

module _ {ℓ} {S : Type ℓ} (h : Handler S) where
  visit_inverse :
      (input rest : Bytes) (s s' : S)
      → visit h input s ≡ ok (rest, s')
      → (r : WriteBatchRecord) × (decode_record input ≡ ok (r, rest)) × (s' ≡ handle h s r)
  visit_inverse input rest s s' e =
      let ((r, rest'), read, result) =
        >>=-eq-ok (decode_record input) _ (sym (visit-decode_record h input s) ∙ e) in
      (r, cc, cc)

  loop_inverse :
      (rounds b n m : ℕ) (bs : Bytes) (s s' : S)
      → iterate_loop (suc rounds) h (b ∷ bs) s n ≡ (ok m, s')
      → (rest : Bytes) × (s1 : S) × (visit h (b ∷ bs) s ≡ ok (rest, s1))
        × (iterate_loop rounds h rest s1 ((n + 1) % 2 ^ 32) ≡ (ok m, s'))
  unfolding iterate_loop
  loop_inverse rounds b n m bs s s' e = elim (Result-cases (visit h (b ∷ bs) s)) [
    | inl ((rest, s1), read) ↦ (rest, s1, read, ground arith)
    | inr (inl (status, failed)) ↦ absurd (ground arith)
    | inr (inr failed) ↦ absurd (ground arith)
  ]

  -- What a loop that succeeds has read: the bytes decode to the records that the handler has seen.
  pub iterate_loop_sound :
      (rounds n m : ℕ) (input : Bytes) (s s' : S)
      → iterate_loop rounds h input s n ≡ (ok m, s')
      → n < 2 ^ 32
      → (rs : List WriteBatchRecord) × Decodes input rs
        × (s' ≡ handle_all h s rs)
        × (m ≡ (n + length rs) % 2 ^ 32)
  unfolding iterate_loop handle_all
  iterate_loop_sound zero n m [] s s' e hn = ([], nothing, cc, ground arith)
  iterate_loop_sound (suc rounds) n m [] s s' e hn = ([], nothing, cc, ground arith)
  iterate_loop_sound zero n m (b ∷ bs) s s' e hn = absurd (ground arith)
  iterate_loop_sound (suc rounds) n m (b ∷ bs) s s' e hn =
      let (rest, s1, read, later) = loop_inverse rounds b n m bs s s' e in
      let (r, decoded, handled) = visit_inverse (b ∷ bs) rest s s1 read in
      let (rs, all, same, counted) =
        iterate_loop_sound rounds ((n + 1) % 2 ^ 32) m rest s1 s' later (omega arith) in
      (
        r ∷ rs,
        one_more decoded all,
        same ∙ ap (λ t. handle_all h t rs) handled,
        counted ∙ omega arith,
      )

check_count_inverse :
    (visited counted : Result ℕ)
    → check_count visited counted ≡ ok tt
    → (n : ℕ) × (visited ≡ ok n) × (counted ≡ ok n)
unfolding check_count
check_count_inverse (ok n) (ok m) e = (n, refl, ground arith)
check_count_inverse (ok n) (err status) e = absurd (ground arith)
check_count_inverse (ok n) panicked e = absurd (ground arith)
check_count_inverse (err status) counted e = absurd (ground arith)
check_count_inverse panicked counted e = absurd (ground arith)

from_zero : (k : ℕ) → (0 + k) % 2 ^ 32 ≡ k % 2 ^ 32
from_zero k = omega arith

-- Whatever its bytes, a batch that `iterate` accepts has records that decode to what the handler has
-- seen, in that order, and its count is their number, up to the 32 bits that it is kept in.
pub iterate_sound {ℓ} :
    {S : Type ℓ} (h : Handler S) (batch : WriteBatch) (s s' : S)
    → iterate h batch s ≡ (ok tt, s')
    → (rs : List WriteBatchRecord) × Decodes (drop 12 batch.rep) rs
      × (s' ≡ handle_all h s rs)
      × (count batch ≡ ok (length rs % 2 ^ 32))
unfolding iterate
iterate_sound h batch s s' e = elim (Bool-cases (ltb (length batch.rep) 12)) [
  | inl short ↦ absurd (ground arith)
  | inr long ↦
      let input = drop 12 batch.rep in
      let visited = iterate_loop (length input) h input s 0 in
      let checked : check_count visited.0 (count batch) ≡ ok tt = ground arith in
      let last : visited.1 ≡ s' = ground arith in
      let (n, read, counted) = check_count_inverse visited.0 (count batch) checked in
      let (rs, all, same, number) =
        iterate_loop_sound h (length input) 0 n input s s' (ground arith) (omega arith) in
      (rs, all, same, counted ∙ ap ok (number ∙ from_zero (length rs)))
]
