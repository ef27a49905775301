-- ===== src/WriteBatch/Plain.antt =====
-- src/write_batch/write_batch.rs: the batch as a header and a list of records.
use pulsearc_db.Base.{
  ℕ, zero, suc, Bytes, [], ◌∷◌, ◌++◌, length, ◌<◌, ◌^◌, ◌≡◌, refl, append_assoc, List, sym,
  append-nil,
}
use pulsearc_db.Result.{Result, ok, ◌>>=◌}
use pulsearc_db.Coding.Fixed.{get_fixed32-put_fixed32, get_fixed64-put_fixed64, put_fixed32-append}
use pulsearc_db.WriteBatch.{
  WriteBatchHeader, WriteBatchRecord, encode_header, decode_header, encode_record, decode_record,
  put_fixed64, put_fixed32,
}
use pulsearc_db.WriteBatch.Records.{
  AreRecords, encoded, encode_record-append, decode_record-encode_record,
}

pub record WriteBatch : Type 0 where
  pub header : WriteBatchHeader
  pub records : List WriteBatchRecord

unfoldable pub encode_records : List WriteBatchRecord → Bytes → Bytes
encode_records [] dst = dst
encode_records (item ∷ items) dst = encode_records items (encode_record item dst)

unfoldable pub encode_batch : WriteBatch → Bytes → Bytes
encode_batch batch dst = encode_records batch.records (encode_header batch.header dst)

unfoldable pub decode_records : ℕ → Bytes → Result (List WriteBatchRecord × Bytes)
decode_records zero input = ok ([], input)
decode_records (suc n) input = do
  (item, input1) ← decode_record input
  (items, rest) ← decode_records n input1
  ok (item ∷ items, rest)

unfoldable pub decode_batch : Bytes → Result (WriteBatch × Bytes)
decode_batch input = do
  (header, input1) ← decode_header input
  (items, rest) ← decode_records header.count input1
  ok (record { header = header; records = items }, rest)

encode_records-append :
    (rs : List WriteBatchRecord) (dst : Bytes) → encode_records rs dst ≡ dst ++ encoded rs
unfolding encode_records encoded
encode_records-append [] dst = sym (append-nil dst)
encode_records-append (r ∷ rs) dst = rw (
  encode_records-append rs (encode_record r dst),
  encode_record-append r dst,
  append_assoc dst (encode_record r []) (encoded rs),
)

decode_records-encoded :
    (rs : List WriteBatchRecord) (rest : Bytes)
    → AreRecords rs
    → decode_records (length rs) (encoded rs ++ rest) ≡ ok (rs, rest)
unfolding decode_records encoded AreRecords
decode_records-encoded [] rest h = refl
decode_records-encoded (r ∷ rs) rest (k, ks) = rw (
  append_assoc (encode_record r []) (encoded rs) rest,
  decode_record-encode_record r (encoded rs ++ rest) k,
  decode_records-encoded rs rest ks,
)

decode_header-encode_header :
    (header : WriteBatchHeader) (rest : Bytes)
    → header.sequence < 2 ^ 64
    → header.count < 2 ^ 32
    → decode_header (encode_header header [] ++ rest) ≡ ok (header, rest)
unfolding decode_header encode_header
decode_header-encode_header header rest hs hc = rw (
  put_fixed32-append (put_fixed64 [] header.sequence) header.count,
  append_assoc (put_fixed64 [] header.sequence) (put_fixed32 [] header.count) rest,
  get_fixed64-put_fixed64 header.sequence (put_fixed32 [] header.count ++ rest) hs,
  get_fixed32-put_fixed32 header.count rest hc,
)

-- A batch whose header counts its records, with a u64 sequence number, a u32 count and lengths that fit
-- 32 bits, is decoded from its encoding, and what follows is left.
pub decode_batch-encode_batch :
    (batch : WriteBatch) (rest : Bytes)
    → batch.header.sequence < 2 ^ 64
    → batch.header.count < 2 ^ 32
    → batch.header.count ≡ length batch.records
    → AreRecords batch.records
    → decode_batch (encode_batch batch [] ++ rest) ≡ ok (batch, rest)
unfolding decode_batch encode_batch
decode_batch-encode_batch batch rest hs hc counts h = rw (
  encode_records-append batch.records (encode_header batch.header []),
  append_assoc (encode_header batch.header []) (encoded batch.records) rest,
  decode_header-encode_header batch.header (encoded batch.records ++ rest) hs hc,
  counts,
  decode_records-encoded batch.records rest h,
)
