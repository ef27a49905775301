-- ===== src/WriteBatch/Build.antt =====
-- The operations of a batch, against the sequence number and the list of records that it holds.
use pulsearc_db.Base.{
  ℕ, ◌+◌, ◌%◌, ◌^◌, ◌<◌, Bytes, [], ◌∷◌, ◌++◌, length, drop, ◌≡◌, refl, ap, sym, ◌∙◌, arith,
  append_assoc, append-nil, length-append, List, le→ltb,
}
use pulsearc_db.Base.Slices.{drop-drop}
use pulsearc_db.Result.{ok}
use pulsearc_db.Coding.{to_le_bytes, decode_fixed32, decode_fixed64}
use pulsearc_db.Coding.Fixed.{
  length-to_le_bytes, decode_fixed32-to_le_bytes, decode_fixed64-to_le_bytes, drop_field,
  take_field,
}
use pulsearc_db.WriteBatch.{
  WriteBatchRecord, delete_record, put_record, WriteBatch, Handler, encode_record, iterate,
  check_count, new, count, set_count, sequence, set_sequence, put, delete, append, records,
  record_collector, encode_put, encode_delete,
}
use pulsearc_db.WriteBatch.Records.{
  AreRecords, encoded, encoded-append, encode_record-append, handle_all, iterate_loop-encoded,
  handle,
}

-- The bytes of a batch: the sequence number, the count of the records, and the records.
unfoldable pub batch_of : ℕ → List WriteBatchRecord → WriteBatch
batch_of seq rs = record {
  rep = to_le_bytes 8 seq ++ (to_le_bytes 4 (length rs % 2 ^ 32) ++ encoded rs);
}

-- A batch with a count of its own.
counted : ℕ → ℕ → Bytes → WriteBatch
counted s n body = record { rep = to_le_bytes 8 s ++ (to_le_bytes 4 n ++ body) }

long_rep : (s n : ℕ) (body : Bytes) → length (counted s n body).rep ≡ 12 + length body
unfolding counted
long_rep s n body = omega (
  arith,
  length-append (to_le_bytes 8 s) (to_le_bytes 4 n ++ body),
  length-append (to_le_bytes 4 n) body,
  length-to_le_bytes 8 s,
  length-to_le_bytes 4 n,
)

records_part : (s n : ℕ) (body : Bytes) → drop 12 (counted s n body).rep ≡ body
unfolding counted
records_part s n body =
    sym (drop-drop 4 8 (to_le_bytes 8 s ++ (to_le_bytes 4 n ++ body)))
    ∙ rw (drop_field 8 s (to_le_bytes 4 n ++ body)) (drop_field 4 n body)

count-counted : (s n : ℕ) (body : Bytes) → n < 2 ^ 32 → count (counted s n body) ≡ ok n
unfolding count counted
count-counted s n body h = rw (
  le→ltb (length (counted s n body).rep) 12 (omega (arith, long_rep s n body)),
  drop_field 8 s (to_le_bytes 4 n ++ body),
  take_field 4 n body,
  ap decode_fixed32 (sym (append-nil (to_le_bytes 4 n))),
  decode_fixed32-to_le_bytes n [] (omega arith),
)

set_count-counted :
    (s n m : ℕ) (body : Bytes) → set_count (counted s n body) m ≡ ok (counted s m body)
unfolding set_count counted
set_count-counted s n m body = rw (
  le→ltb (length (counted s n body).rep) 12 (omega (arith, long_rep s n body)),
  take_field 8 s (to_le_bytes 4 n ++ body),
  records_part s n body,
)

set_sequence-counted :
    (s s' n : ℕ) (body : Bytes) → set_sequence (counted s n body) s' ≡ ok (counted s' n body)
unfolding set_sequence counted
set_sequence-counted s s' n body = rw (
  le→ltb (length (counted s n body).rep) 8 (omega (arith, long_rep s n body)),
  drop_field 8 s (to_le_bytes 4 n ++ body),
)

length-batch_of :
    (s : ℕ) (rs : List WriteBatchRecord) → length (batch_of s rs).rep ≡ 12 + length (encoded rs)
unfolding batch_of counted
length-batch_of s rs = long_rep s (length rs % 2 ^ 32) (encoded rs)

records_part_of : (s : ℕ) (rs : List WriteBatchRecord) → drop 12 (batch_of s rs).rep ≡ encoded rs
unfolding batch_of counted
records_part_of s rs = records_part s (length rs % 2 ^ 32) (encoded rs)

-- The count that `put`, `delete` and `append` write is that of the longer list.
more_records :
    (s : ℕ) (rs added : List WriteBatchRecord)
    → record {
      rep =
          (counted s ((length rs % 2 ^ 32 + length added % 2 ^ 32) % 2 ^ 32) (encoded rs)).rep
          ++ encoded added;
    }
      ≡ batch_of s (rs ++ added)
unfolding counted batch_of
more_records s rs added =
    let sum : (length rs % 2 ^ 32 + length added % 2 ^ 32) % 2 ^ 32
        ≡ length (rs ++ added) % 2 ^ 32 =
      omega (arith, length-append rs added) in
    rw (
      sum,
      encoded-append rs added,
      append_assoc (to_le_bytes 8 s) (to_le_bytes 4 (length (rs ++ added) % 2 ^ 32) ++ encoded rs)
          (encoded added),
      append_assoc (to_le_bytes 4 (length (rs ++ added) % 2 ^ 32)) (encoded rs) (encoded added),
    )

count-batch_of :
    (s : ℕ) (rs : List WriteBatchRecord) → count (batch_of s rs) ≡ ok (length rs % 2 ^ 32)
unfolding batch_of counted
count-batch_of s rs = count-counted s (length rs % 2 ^ 32) (encoded rs) (omega arith)

set_count-batch_of :
    (s m : ℕ) (rs : List WriteBatchRecord)
    → set_count (batch_of s rs) m ≡ ok (counted s m (encoded rs))
unfolding batch_of counted
set_count-batch_of s m rs = set_count-counted s (length rs % 2 ^ 32) m (encoded rs)

-- A record behind the others.
one_more :
    (s : ℕ) (rs : List WriteBatchRecord) (r : WriteBatchRecord)
    → record {
      rep = encode_record r (counted s ((length rs % 2 ^ 32 + 1) % 2 ^ 32) (encoded rs)).rep;
    }
      ≡ batch_of s (rs ++ r ∷ [])
unfolding encoded
one_more s rs r =
    rw (encode_record-append r (counted s ((length rs % 2 ^ 32 + 1) % 2 ^ 32) (encoded rs)).rep)
      (rw append-nil at (more_records s rs (r ∷ [])))

pub new_lem : new ≡ batch_of 0 []
unfolding new batch_of encoded to_le_bytes
new_lem = refl

-- `put` on a batch that holds a list of records succeeds, and appends its record to the list.
pub put-batch_of :
    (s : ℕ) (rs : List WriteBatchRecord) (key value : Bytes)
    → put (batch_of s rs) key value ≡ ok (batch_of s (rs ++ put_record key value ∷ []))
unfolding put encode_put encode_record
put-batch_of s rs key value =
    rw (count-batch_of s rs, set_count-batch_of s ((length rs % 2 ^ 32 + 1) % 2 ^ 32) rs)
      (ap ok (one_more s rs (put_record key value)))

-- `delete` on a batch that holds a list of records succeeds, and appends its record to the list.
pub delete-batch_of :
    (s : ℕ) (rs : List WriteBatchRecord) (key : Bytes)
    → delete (batch_of s rs) key ≡ ok (batch_of s (rs ++ delete_record key ∷ []))
unfolding delete encode_delete encode_record
delete-batch_of s rs key =
    rw (count-batch_of s rs, set_count-batch_of s ((length rs % 2 ^ 32 + 1) % 2 ^ 32) rs)
      (ap ok (one_more s rs (delete_record key)))

-- `append` succeeds, appends the records of the other batch, and keeps the sequence number.
pub append-batch_of :
    (s s' : ℕ) (rs rs' : List WriteBatchRecord)
    → append (batch_of s rs) (batch_of s' rs') ≡ ok (batch_of s (rs ++ rs'))
unfolding append
append-batch_of s s' rs rs' =
    rw
      (
        count-batch_of s rs,
        count-batch_of s' rs',
        set_count-batch_of s ((length rs % 2 ^ 32 + length rs' % 2 ^ 32) % 2 ^ 32) rs,
        records_part_of s' rs',
      )
      (ap ok (more_records s rs rs'))

-- `set_sequence` replaces the sequence number and keeps the records.
pub set_sequence-batch_of :
    (s s' : ℕ) (rs : List WriteBatchRecord) → set_sequence (batch_of s rs) s' ≡ ok (batch_of s' rs)
unfolding batch_of counted
set_sequence-batch_of s s' rs = set_sequence-counted s s' (length rs % 2 ^ 32) (encoded rs)

pub sequence-batch_of :
    (s : ℕ) (rs : List WriteBatchRecord) → s < 2 ^ 64 → sequence (batch_of s rs) ≡ ok s
unfolding sequence batch_of
sequence-batch_of s rs h = rw (
  le→ltb (length (batch_of s rs).rep) 8 (omega (arith, length-batch_of s rs)),
  take_field 8 s (to_le_bytes 4 (length rs % 2 ^ 32) ++ encoded rs),
  ap decode_fixed64 (sym (append-nil (to_le_bytes 8 s))),
  decode_fixed64-to_le_bytes s [] (omega arith),
)

check_count_same : (n : ℕ) → check_count (ok ((0 + n) % 2 ^ 32)) (ok (n % 2 ^ 32)) ≡ ok tt
unfolding check_count
check_count_same n = ground arith

-- For a batch of records whose lengths fit 32 bits, `iterate` succeeds, and any handler has seen the
-- records in their order.
pub iterate-batch_of {ℓ} :
    {S : Type ℓ} (h : Handler S) (s : ℕ) (rs : List WriteBatchRecord) (st : S)
    → AreRecords rs
    → iterate h (batch_of s rs) st ≡ (ok tt, handle_all h st rs)
unfolding iterate
iterate-batch_of h s rs st k = rw (
  le→ltb (length (batch_of s rs).rep) 12 (omega (arith, length-batch_of s rs)),
  records_part_of s rs,
  iterate_loop-encoded h (length (encoded rs)) rs st 0 (omega arith) k (omega arith),
  count-batch_of s rs,
  check_count_same (length rs),
)

collected : (rs done : List WriteBatchRecord) → handle_all record_collector done rs ≡ done ++ rs
unfolding handle_all handle record_collector
collected [] done = sym (append-nil done)
collected (delete_record key ∷ rs) done =
    collected rs (done ++ delete_record key ∷ []) ∙ append_assoc done (delete_record key ∷ []) rs
collected (put_record key value ∷ rs) done =
    collected rs (done ++ put_record key value ∷ [])
    ∙ append_assoc done (put_record key value ∷ []) rs

-- `records` returns the list that the batch holds, if the records' lengths fit 32 bits.
pub records-batch_of :
    (s : ℕ) (rs : List WriteBatchRecord) → AreRecords rs → records (batch_of s rs) ≡ ok rs
unfolding records
records-batch_of s rs k = rw (iterate-batch_of record_collector s rs [] k, collected rs [])
