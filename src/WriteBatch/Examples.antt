-- ===== src/WriteBatch/Examples.antt =====
-- src/write_batch/ on a batch of two records.
use pulsearc_db.Base.{[], ◌∷◌, ◌++◌, List, length, drop, ◌%◌, ◌^◌, ◌≡◌, refl, arith}
use pulsearc_db.Result.{ok, ◌>>=◌}
use pulsearc_db.WriteBatch.{
  WriteBatchRecord, delete_record, put_record, put, append, count, records, record_collector,
  decode_record, visit,
}
use pulsearc_db.WriteBatch.Records.{AreRecords, IsRecord, handle, handle_all}
use pulsearc_db.WriteBatch.Build.{
  batch_of, put-batch_of, append-batch_of, iterate-batch_of, records-batch_of,
}
use pulsearc_db.WriteBatch.Visit.{Decodes, visit-decode_record, iterate_sound}
use pulsearc_db.WriteBatch.Plain.{decode_batch, encode_batch, decode_batch-encode_batch}
use pulsearc_db.WriteBatch.Plain

abbrev two : List WriteBatchRecord
two = put_record (97 ∷ []) (49 ∷ []) ∷ delete_record (98 ∷ []) ∷ []

two-AreRecords : AreRecords two
unfolding AreRecords IsRecord
two-AreRecords = ((omega arith, omega arith), (omega arith, tt))

records-batch_of_example : records (batch_of 7 two) ≡ ok two
records-batch_of_example = records-batch_of 7 two two-AreRecords

put-batch_of_example :
    put (batch_of 7 two) (99 ∷ []) (50 ∷ [])
    ≡ ok (batch_of 7 (two ++ put_record (99 ∷ []) (50 ∷ []) ∷ []))
put-batch_of_example = put-batch_of 7 two (99 ∷ []) (50 ∷ [])

append-batch_of_example : append (batch_of 7 two) (batch_of 9 two) ≡ ok (batch_of 7 (two ++ two))
append-batch_of_example = append-batch_of 7 9 two two

visit-decode_record_example :
    visit record_collector (0 ∷ 1 ∷ 98 ∷ []) []
    ≡ (decode_record (0 ∷ 1 ∷ 98 ∷ []) >>= λ (r, rest). ok (rest, handle record_collector [] r))
visit-decode_record_example = visit-decode_record record_collector (0 ∷ 1 ∷ 98 ∷ []) []

iterate_sound_example :
    (rs : List WriteBatchRecord) × Decodes (drop 12 (batch_of 7 two).rep) rs
    × (handle_all record_collector [] two ≡ handle_all record_collector [] rs)
    × (count (batch_of 7 two) ≡ ok (length rs % 2 ^ 32))
iterate_sound_example =
    iterate_sound record_collector (batch_of 7 two) [] (handle_all record_collector [] two)
      (iterate-batch_of record_collector 7 two [] two-AreRecords)

abbrev plain : Plain.WriteBatch
plain = record { header = record { sequence = 7; count = 2 }; records = two }

decode_batch-encode_batch_example :
    decode_batch (encode_batch plain [] ++ 5 ∷ []) ≡ ok (plain, 5 ∷ [])
decode_batch-encode_batch_example =
    decode_batch-encode_batch plain (5 ∷ []) (omega arith) (omega arith) refl two-AreRecords
