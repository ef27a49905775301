-- ===== src/Log/Examples.antt =====
-- src/log/ on a small log, over the portable checksum.
use pulsearc_db.Base.{
  ℕ, [], ◌∷◌, ◌++◌, length, some, ◌≡◌, refl, arith, replicate, ap, ◌%◌, length-replicate,
}
use pulsearc_db.Result.{ok}
use pulsearc_db.Crc32c.Bounds.{software}
use pulsearc_db.Log.{
  LogRecordHeader, LogWriter, new_writer, add_record, mark, rewind_to, read_record,
}
use pulsearc_db.Log.Stream.{add_record_to}
use pulsearc_db.Log.Stream.Memory.{memory, stream_of, add_record_to-memory}
use pulsearc_db.Log.Writing.{IsAligned, add_record-IsAligned, rewind_to-add_record}
use pulsearc_db.Log.RoundTrip.{read_record-add_record}

new_writer-IsAligned : IsAligned new_writer
new_writer-IsAligned = record { within = omega arith; aligned = refl }

-- A writer ten bytes before the end of a block: a record of four bytes is split.
abbrev near_end : LogWriter
near_end = record { sink = replicate 32758 0; block_offset = 32758 }

near_end-IsAligned : IsAligned near_end
near_end-IsAligned = record {
  within = omega arith;
  aligned = ap (λ (n : ℕ). n % 32768) (length-replicate {A = ℕ} 32758 0);
}

abbrev header : LogRecordHeader
header = record { crc = 0xe3069283; length = 4; kind = 1 }

add_record-IsAligned_example : IsAligned (add_record software near_end (1 ∷ 2 ∷ 3 ∷ 4 ∷ []))
add_record-IsAligned_example =
    add_record-IsAligned software {w = near_end} (1 ∷ 2 ∷ 3 ∷ 4 ∷ []) near_end-IsAligned

rewind_to-add_record_example :
    rewind_to (add_record software near_end (1 ∷ 2 ∷ 3 ∷ 4 ∷ [])) (mark near_end) ≡ some near_end
rewind_to-add_record_example = rewind_to-add_record software near_end (1 ∷ 2 ∷ 3 ∷ 4 ∷ [])

read_record-add_record_example :
    read_record software
      ((add_record software near_end (1 ∷ 2 ∷ 3 ∷ 4 ∷ [])).sink ++ 5 ∷ [])
      (length near_end.sink)
    ≡ (
      ok (some (1 ∷ 2 ∷ 3 ∷ 4 ∷ [])),
      length (add_record software near_end (1 ∷ 2 ∷ 3 ∷ 4 ∷ [])).sink,
    )
read_record-add_record_example =
    read_record-add_record software near_end (1 ∷ 2 ∷ 3 ∷ 4 ∷ []) (5 ∷ []) near_end-IsAligned
      (omega arith, (omega arith, (omega arith, (omega arith, tt))))

add_record_to-memory_example :
    add_record_to software memory (stream_of near_end) (1 ∷ 2 ∷ 3 ∷ 4 ∷ [])
    ≡ (ok tt, stream_of (add_record software near_end (1 ∷ 2 ∷ 3 ∷ 4 ∷ [])))
add_record_to-memory_example =
    add_record_to-memory software near_end (1 ∷ 2 ∷ 3 ∷ 4 ∷ [])
      (omega arith, (omega arith, (omega arith, (omega arith, tt))))
