-- ===== src/Log/Frames.antt =====
-- The bytes of one record as a function of the offset in the block, apart from any sink.
use pulsearc_db.Base.{
  ℕ, zero, suc, ◌+◌, ◌-◌, ◌%◌, ◌^◌, min, Bool, true, false, Bytes, [], ◌++◌, length, take, drop,
  replicate, ltb, ◌==◌, if◌then◌else◌, ◌≡◌, arith, append_assoc, append-nil, ap, Bool-cases, inl,
  inr,
}
use pulsearc_db.Crc32c.{Checksum}
use pulsearc_db.Log.{
  block_size, header_size, LogRecordHeader, LogWriter, encode_header, fill_block, fragment_kind,
  record_crc, emit_physical_record, add_record_loop,
}
use pulsearc_db.Log.Header.{encode_header-append}

-- The zeros that finish a block, and where the next header then starts.
unfoldable pub padding : ℕ → Bytes
padding offset =
    if ltb (block_size - offset) header_size then replicate (block_size - offset) 0 else []

unfoldable pub header_offset : ℕ → ℕ
header_offset offset = if ltb (block_size - offset) header_size then 0 else offset

-- How much of a record of `n` bytes goes into the block.
unfoldable pub fragment_size : ℕ → ℕ → ℕ
fragment_size offset n = min n (block_size - header_offset offset - header_size)

fill_block_lem :
    (w : LogWriter)
    → fill_block w ≡ record {
      sink = w.sink ++ padding w.block_offset;
      block_offset = header_offset w.block_offset;
    }
unfolding fill_block padding header_offset
fill_block_lem w = ground (arith, append-nil w.sink)

fragment_size_lem :
    (w : LogWriter) (left : Bytes)
    → min (length left) (block_size - (fill_block w).block_offset - header_size)
      ≡ fragment_size w.block_offset (length left)
unfolding fragment_size
fragment_size_lem w left =
    ap (λ (f : LogWriter). min (length left) (block_size - f.block_offset - header_size))
      (fill_block_lem w)

module _ (c : Checksum) where
  abbrev pub header_of : ℕ → Bytes → LogRecordHeader
  header_of kind payload = record {
    crc = record_crc c kind payload;
    length = length payload % 2 ^ 16;
    kind = kind;
  }

  unfoldable pub frame : ℕ → Bytes → Bytes
  frame kind payload = encode_header [] (header_of kind payload) ++ payload

  unfoldable pub frames : ℕ → ℕ → Bytes → Bool → Bytes
  frames zero offset left begin = []
  frames (suc rounds) offset left begin =
      let n = fragment_size offset (length left) in
      let end = length left == n in
      let here = frame (fragment_kind begin end) (take n left) in
      let behind =
        frames rounds (header_offset offset + (header_size + length (take n left))) (drop n left)
          false in
      padding offset ++ (here ++ (if end then [] else behind))

  -- The offset in the block behind the record.
  unfoldable pub final_offset : ℕ → ℕ → Bytes → Bool → ℕ
  final_offset zero offset left begin = offset
  final_offset (suc rounds) offset left begin =
      let n = fragment_size offset (length left) in
      let next = header_offset offset + (header_size + length (take n left)) in
      let behind = final_offset rounds next (drop n left) false in
      if length left == n then next else behind

  emit_physical_record_lem :
      (w : LogWriter) (kind : ℕ) (payload : Bytes)
      → emit_physical_record c w kind payload ≡ record {
        sink = w.sink ++ frame kind payload;
        block_offset = w.block_offset + (header_size + length payload);
      }
  unfolding emit_physical_record frame
  emit_physical_record_lem w kind payload = rw (
    encode_header-append w.sink (header_of kind payload),
    append_assoc w.sink (encode_header [] (header_of kind payload)) payload,
  )

  -- One round of the writer.
  one_round :
      (w : LogWriter) (kind : ℕ) (payload : Bytes)
      → emit_physical_record c (fill_block w) kind payload ≡ record {
        sink = w.sink ++ (padding w.block_offset ++ frame kind payload);
        block_offset = header_offset w.block_offset + (header_size + length payload);
      }
  one_round w kind payload = rw (
    fill_block_lem w,
    emit_physical_record_lem,
    append_assoc w.sink (padding w.block_offset) (frame kind payload),
  )

  -- The writer appends the frames, and stands behind them.
  pub add_record_loop-frames :
      (rounds : ℕ) (w : LogWriter) (left : Bytes) (begin : Bool)
      → add_record_loop c rounds w left begin ≡ record {
        sink = w.sink ++ frames rounds w.block_offset left begin;
        block_offset = final_offset rounds w.block_offset left begin;
      }
  unfolding add_record_loop frames final_offset
  add_record_loop-frames zero w left begin = rw (append-nil w.sink)
  add_record_loop-frames (suc rounds) w left begin =
      let off = w.block_offset in
      let n = fragment_size off (length left) in
      let p = take n left in
      elim (Bool-cases (length left == n)) [
        | inl end ↦ ground (
          arith,
          fill_block_lem w,
          fragment_size_lem w left,
          one_round w (fragment_kind begin true) p,
          append-nil (frame (fragment_kind begin true) p),
        )
        | inr go ↦
            let here = padding off ++ frame (fragment_kind begin false) p in
            let w2 : LogWriter = record {
              sink = w.sink ++ here;
              block_offset = header_offset off + (header_size + length p);
            } in
            ground (
              arith,
              fill_block_lem w,
              fragment_size_lem w left,
              one_round w (fragment_kind begin false) p,
              add_record_loop-frames rounds w2 (drop n left) false,
              append_assoc w.sink here (frames rounds w2.block_offset (drop n left) false),
              append_assoc (padding off) (frame (fragment_kind begin false) p)
                  (frames rounds w2.block_offset (drop n left) false),
            )
      ]
