-- ===== src/WriteBatch.antt =====
-- src/write_batch/: the batch of mutations, as bytes and as a list of records.
-- A batch's bytes are shared by no one else, so an operation takes the batch and returns the new one;
-- `panicked` is the slice index out of range, on a batch shorter than its twelve-byte header.
-- A handler is the operations of the trait on a state; `iterate` returns the state beside the result,
-- since the records before a failure have been handled.
pub mod Plain
pub mod Records
pub mod Build
pub mod Visit
mod Examples
use pulsearc_db.Base.{
  ℕ, zero, suc, ◌+◌, ◌%◌, ◌^◌, Bytes, [], ◌∷◌, ◌++◌, length, take, drop, replicate, ltb, ◌==◌,
  if◌then◌else◌, Option, List, String,
}
use pulsearc_db.Status.{Status, corruption, text, numbered}
use pulsearc_db.Result.{Result, ok, err, panicked, ◌>>=◌, ok_or, expect}
use pulsearc_db.Coding.{
  to_le_bytes, get_u8, get_fixed32, get_fixed64, put_fixed32, put_fixed64, decode_fixed32,
  decode_fixed64, put_length_prefixed_slice, get_length_prefixed_slice,
}

abbrev pub header_len : ℕ
header_len = 12

pub record WriteBatchHeader : Type 0 where
  pub sequence : ℕ
  pub count : ℕ

unfoldable pub encode_header : WriteBatchHeader → Bytes → Bytes
encode_header header dst = put_fixed32 (put_fixed64 dst header.sequence) header.count

unfoldable pub decode_header : Bytes → Result (WriteBatchHeader × Bytes)
decode_header input = do
  (sequence, input1) ←
      ok_or (get_fixed64 input) (corruption (text "WriteBatchHeader: missing sequence"))
  (count, input2) ← ok_or (get_fixed32 input1) (corruption (text "WriteBatchHeader: missing count"))
  ok (record { sequence = sequence; count = count }, input2)

pub data WriteBatchRecord : Type 0 where
  delete_record : (key : Bytes) → WriteBatchRecord
  put_record : (key value : Bytes) → WriteBatchRecord

unfoldable pub encode_delete : Bytes → Bytes → Bytes
encode_delete dst key = put_length_prefixed_slice (dst ++ 0 ∷ []) key

unfoldable pub encode_put : Bytes → Bytes → Bytes → Bytes
encode_put dst key value =
    put_length_prefixed_slice (put_length_prefixed_slice (dst ++ 1 ∷ []) key) value

unfoldable pub encode_record : WriteBatchRecord → Bytes → Bytes
encode_record (delete_record key) dst = put_length_prefixed_slice (dst ++ 0 ∷ []) key
encode_record (put_record key value) dst =
    put_length_prefixed_slice (put_length_prefixed_slice (dst ++ 1 ∷ []) key) value

missing : {A : Type 0} → Option A → String → Result A
missing found what = ok_or found (corruption (text what))

unfoldable pub decode_tagged : ℕ → Bytes → Result (WriteBatchRecord × Bytes)
unfolding missing
decode_tagged zero input = do
  (key, rest) ← missing (get_length_prefixed_slice input) "WriteBatchRecord: missing key"
  ok (delete_record key, rest)
decode_tagged (suc zero) input = do
  (key, input1) ← missing (get_length_prefixed_slice input) "WriteBatchRecord: missing key"
  (value, rest) ← missing (get_length_prefixed_slice input1) "WriteBatchRecord: missing value"
  ok (put_record key value, rest)
decode_tagged (suc (suc other)) input =
    err (corruption (numbered "WriteBatchRecord: unknown tag " (other + 2)))

unfoldable pub decode_record : Bytes → Result (WriteBatchRecord × Bytes)
unfolding missing
decode_record input = do
  (tag, input1) ← missing (get_u8 input) "WriteBatchRecord: missing tag"
  decode_tagged tag input1

-- `WriteBatchHandler` and `WriteBatchRecordVisitor`, which have the same operations.
pub record Handler {ℓ} (S : Type ℓ) : Type ℓ where
  pub delete : S → Bytes → S
  pub put : S → Bytes → Bytes → S

unfoldable pub visit_tagged {ℓ} : {S : Type ℓ} → Handler S → ℕ → Bytes → S → Result (Bytes × S)
unfolding missing
visit_tagged h zero input s = do
  (key, rest) ← missing (get_length_prefixed_slice input) "WriteBatchRecord: missing key"
  ok (rest, h.delete s key)
visit_tagged h (suc zero) input s = do
  (key, input1) ← missing (get_length_prefixed_slice input) "WriteBatchRecord: missing key"
  (value, rest) ← missing (get_length_prefixed_slice input1) "WriteBatchRecord: missing value"
  ok (rest, h.put s key value)
visit_tagged h (suc (suc other)) input s =
    err (corruption (numbered "WriteBatchRecord: unknown tag " (other + 2)))

unfoldable pub visit {ℓ} : {S : Type ℓ} → Handler S → Bytes → S → Result (Bytes × S)
unfolding missing
visit h input s = do
  (tag, input1) ← missing (get_u8 input) "WriteBatchRecord: missing tag"
  visit_tagged h tag input1 s

pub record WriteBatch : Type 0 where
  pub rep : Bytes

unfoldable pub new : WriteBatch
new = record { rep = replicate header_len 0 }

unfoldable pub clear : WriteBatch → WriteBatch
clear batch = record { rep = replicate header_len 0 }

-- `decode_fixed32(&self.rep[8..12])`
unfoldable pub count : WriteBatch → Result ℕ
count batch =
    if ltb (length batch.rep) 12
    then panicked
    else expect (decode_fixed32 (take 4 (drop 8 batch.rep)))

unfoldable pub set_count : WriteBatch → ℕ → Result WriteBatch
set_count batch n =
    if ltb (length batch.rep) 12
    then panicked
    else ok (record { rep = take 8 batch.rep ++ (to_le_bytes 4 n ++ drop 12 batch.rep) })

unfoldable pub sequence : WriteBatch → Result ℕ
sequence batch =
    if ltb (length batch.rep) 8 then panicked else expect (decode_fixed64 (take 8 batch.rep))

unfoldable pub contents_with_sequence : WriteBatch → ℕ → Result Bytes
contents_with_sequence batch n =
    if ltb (length batch.rep) 8 then panicked else ok (to_le_bytes 8 n ++ drop 8 batch.rep)

unfoldable pub set_sequence : WriteBatch → ℕ → Result WriteBatch
set_sequence batch n =
    if ltb (length batch.rep) 8
    then panicked
    else ok (record { rep = to_le_bytes 8 n ++ drop 8 batch.rep })

unfoldable pub put : WriteBatch → Bytes → Bytes → Result WriteBatch
put batch key value = do
  n ← count batch
  counted ← set_count batch ((n + 1) % 2 ^ 32)
  ok (record { rep = encode_put counted.rep key value })

unfoldable pub delete : WriteBatch → Bytes → Result WriteBatch
delete batch key = do
  n ← count batch
  counted ← set_count batch ((n + 1) % 2 ^ 32)
  ok (record { rep = encode_delete counted.rep key })

unfoldable pub approximate_size : WriteBatch → ℕ
approximate_size batch = length batch.rep

-- A failure leaves the batch as it was.
unfoldable pub set_contents : WriteBatch → Bytes → Result WriteBatch
set_contents batch contents =
    if ltb (length contents) header_len
    then err (corruption (text "malformed WriteBatch (too small)"))
    else ok (record { rep = contents })

unfoldable pub append : WriteBatch → WriteBatch → Result WriteBatch
append batch source = do
  n ← count batch
  m ← count source
  counted ← set_count batch ((n + m) % 2 ^ 32)
  ok (record { rep = counted.rep ++ drop header_len source.rep })

-- The `while` loop of `iterate`, with the adapter's count. A record takes at least its tag, so as many
-- rounds as there are bytes are enough; the adapter's `+= 1` wraps at 32 bits.
unfoldable pub iterate_loop {ℓ} : {S : Type ℓ} → ℕ → Handler S → Bytes → S → ℕ → Result ℕ × S
iterate_loop rounds h [] s n = (ok n, s)
iterate_loop zero h (b ∷ input) s n = (panicked, s)
iterate_loop (suc rounds) h (b ∷ input) s n = elim (visit h (b ∷ input) s) [
  | err e ↦ (err e, s)
  | panicked ↦ (panicked, s)
  | ok (rest, s') ↦ iterate_loop rounds h rest s' ((n + 1) % 2 ^ 32)
]

unfoldable pub check_count : Result ℕ → Result ℕ → Result {0} Unit
check_count visited counted = do
  n ← visited
  m ← counted
  if n == m then ok tt else err (corruption (text "WriteBatch has wrong count"))

unfoldable pub iterate {ℓ} : {S : Type ℓ} → Handler S → WriteBatch → S → Result {0} Unit × S
iterate h batch s =
    let input = drop header_len batch.rep in
    let (visited, s') = iterate_loop (length input) h input s 0 in
    if ltb (length batch.rep) header_len
    then (err (corruption (text "malformed WriteBatch (too small)")), s)
    else (check_count visited (count batch), s')

unfoldable pub record_collector : Handler (List WriteBatchRecord)
record_collector = record {
  delete = λ records key. records ++ delete_record key ∷ [];
  put = λ records key value. records ++ put_record key value ∷ [];
}

unfoldable pub records : WriteBatch → Result (List WriteBatchRecord)
records batch =
    let (result, collected) = iterate record_collector batch [] in (result >>= λ _. ok collected)
