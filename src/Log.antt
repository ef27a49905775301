-- ===== src/Log.antt =====
-- src/log/log.rs and src/log/log_record_header.rs: the record log of the WAL and the manifest. The
-- writer here collects its bytes in the sink; `LogReader` reads a byte slice through a cursor.
pub mod Header
pub mod Frames
pub mod Writing
pub mod Reading
pub mod Rounds
pub mod RoundTrip
pub mod Stream
pub mod Sequential
mod Examples
use pulsearc_db.Base.{
  ℕ, zero, suc, ◌+◌, ◌-◌, ◌%◌, ◌^◌, min, Bool, true, false, ◌&&◌, Bytes, Option, none, some, [],
  ◌∷◌, ◌++◌, length, take, drop, replicate, ltb, ◌==◌, if◌then◌else◌,
}
use pulsearc_db.Coding.{put_fixed16, put_fixed32, get_u8, get_fixed16, get_fixed32}
use pulsearc_db.Crc32c.{Checksum, value, mask, unmask}
use pulsearc_db.Result.{Result, ok, err, panicked, ◌>>=◌, ok_or}
use pulsearc_db.Status.{Status, corruption, text, numbered}

abbrev pub block_size : ℕ
block_size = 32768

abbrev pub header_size : ℕ
header_size = 7

abbrev pub kind_zero : ℕ
kind_zero = 0

abbrev pub kind_full : ℕ
kind_full = 1

abbrev pub kind_first : ℕ
kind_first = 2

abbrev pub kind_middle : ℕ
kind_middle = 3

abbrev pub kind_last : ℕ
kind_last = 4

pub record LogRecordHeader : Type 0 where
  pub crc : ℕ
  pub length : ℕ
  pub kind : ℕ

unfoldable pub encode_header : Bytes → LogRecordHeader → Bytes
encode_header dst h = put_fixed16 (put_fixed32 dst (mask h.crc)) h.length ++ h.kind ∷ []

unfoldable pub decode_header : Bytes → Result (LogRecordHeader × Bytes)
decode_header input = do
  (crc_raw, rest) ← ok_or (get_fixed32 input) (corruption (text "LogRecordHeader: missing crc"))
  (len, rest') ← ok_or (get_fixed16 rest) (corruption (text "LogRecordHeader: missing length"))
  (kind, rest'') ← ok_or (get_u8 rest') (corruption (text "LogRecordHeader: missing kind"))
  ok (record { crc = unmask crc_raw; length = len; kind = kind }, rest'')

pub record LogWriter : Type 0 where
  pub sink : Bytes
  pub block_offset : ℕ

pub record LogWriterMark : Type 0 where
  pub sink_len : ℕ
  pub block_offset : ℕ

abbrev pub new_writer : LogWriter
new_writer = record { sink = []; block_offset = 0 }

unfoldable pub mark : LogWriter → LogWriterMark
mark w = record { sink_len = length w.sink; block_offset = w.block_offset }

-- `none` is the failed assertion on a mark from the future.
unfoldable pub rewind_to : LogWriter → LogWriterMark → Option LogWriter
rewind_to w m =
    if ltb (length w.sink) m.sink_len
    then none
    else some (record { sink = take m.sink_len w.sink; block_offset = m.block_offset })

-- The kind of a fragment that begins the record or not, and ends it or not.
unfoldable pub fragment_kind : Bool → Bool → ℕ
fragment_kind begin end =
    if begin && end
    then kind_full
    else if begin
    then kind_first
    else if end
    then kind_last
    else kind_middle

-- Where fewer than `header_size` bytes are left in the block, they are filled with zeros.
unfoldable pub fill_block : LogWriter → LogWriter
fill_block w =
    let leftover = block_size - w.block_offset in
    if ltb leftover header_size
    then record {
      sink = if ltb 0 leftover then w.sink ++ replicate leftover 0 else w.sink;
      block_offset = 0;
    }
    else w

-- What `read_record` does with one fragment: it goes on with a scratch buffer, or it is done.
pub data Progress : Type 0 where
  more : Bytes → Progress
  done : Result (Option Bytes) → Progress

unfoldable pub take_fragment : ℕ → Bytes → Bytes → Bool → Progress
take_fragment kind fragment scratch in_fragmented =
    if kind == kind_full
    then (if in_fragmented
        then done (err (corruption (text "LogReader: full inside fragmented record")))
        else done (ok (some fragment)))
    else if kind == kind_first
    then (if in_fragmented
        then done (err (corruption (text "LogReader: first inside fragmented record")))
        else more fragment)
    else if kind == kind_middle
    then (if in_fragmented
        then more (scratch ++ fragment)
        else done (err (corruption (text "LogReader: middle outside fragmented record"))))
    else if kind == kind_last
    then (if in_fragmented
        then done (ok (some (scratch ++ fragment)))
        else done (err (corruption (text "LogReader: last outside fragmented record"))))
    else done (err (corruption (numbered "LogReader: unknown record kind " kind)))

-- At the end of the input.
unfoldable pub at_end : Bool → Result (Option Bytes)
at_end in_fragmented =
    if in_fragmented
    then err (corruption (text "LogReader: truncated fragmented record"))
    else ok none

module _ (c : Checksum) where
  -- The checksum of a fragment covers its kind and its payload.
  unfoldable pub record_crc : ℕ → Bytes → ℕ
  record_crc kind payload = c.extend (value c (kind ∷ [])) payload

  unfoldable pub emit_physical_record : LogWriter → ℕ → Bytes → LogWriter
  emit_physical_record w kind payload =
      let header : LogRecordHeader = record {
        crc = record_crc kind payload;
        length = length payload % 2 ^ 16;
        kind = kind;
      } in
      record {
        sink = encode_header w.sink header ++ payload;
        block_offset = w.block_offset + (header_size + length payload);
      }

  -- The `loop`, for the rounds left. Each round but the first of a record takes at least one byte.
  unfoldable pub add_record_loop : ℕ → LogWriter → Bytes → Bool → LogWriter
  add_record_loop zero w left begin = w
  add_record_loop (suc rounds) w left begin =
      let w1 = fill_block w in
      let avail = block_size - w1.block_offset - header_size in
      let fragment_len = min (length left) avail in
      let end = length left == fragment_len in
      let w2 = emit_physical_record w1 (fragment_kind begin end) (take fragment_len left) in
      let more = add_record_loop rounds w2 (drop fragment_len left) false in
      if end then w2 else more

  unfoldable pub add_record : LogWriter → Bytes → LogWriter
  add_record w payload = add_record_loop (length payload + 2) w payload true

  unfoldable pub add_record_and_get_fragment : LogWriter → Bytes → LogWriter × Bytes
  add_record_and_get_fragment w payload =
      let w' = add_record w payload in (w', drop (length w.sink) w'.sink)

  -- The checks of `read_physical` behind the header at the cursor, in their order.
  unfoldable pub check_record : Bytes → ℕ → LogRecordHeader → Result Bytes
  check_record bytes cursor header =
      let len = header.length in
      let payload = take len (drop (cursor + header_size) bytes) in
      if ltb (block_size - cursor % block_size - header_size) len
      then err (corruption (text "LogReader: record extends past block end"))
      else if ltb (length bytes) (cursor + header_size + len)
      then err (corruption (text "LogReader: truncated payload"))
      else if record_crc header.kind payload == header.crc
      then ok payload
      else err (corruption (text "LogReader: bad record CRC"))

  unfoldable pub record_at : Bytes → ℕ → Result (LogRecordHeader × Bytes)
  record_at bytes cursor = do
    (header, rest) ← decode_header (take header_size (drop cursor bytes))
    payload ← check_record bytes cursor header
    ok (header, payload)

  -- `LogReader::read_physical`, for the rounds left: the result and the new cursor. Every round moves
  -- the cursor; `panicked` at the end of the rounds is no outcome of the source.
  unfoldable pub read_physical_loop : ℕ → Bytes → ℕ → Result (Option (ℕ × Bytes)) × ℕ
  read_physical_loop zero bytes cursor = (panicked, cursor)
  read_physical_loop (suc rounds) bytes cursor =
      let leftover = block_size - cursor % block_size in
      let skip = read_physical_loop rounds bytes (cursor + leftover) in
      if ltb leftover header_size
      then skip
      else if ltb (length bytes) (cursor + header_size)
      then (ok none, cursor)
      else elim (record_at bytes cursor) [
        | err e ↦ (err e, cursor)
        | panicked ↦ (panicked, cursor)
        | ok (header, payload) ↦
            let next = cursor + header_size + header.length in
            let again = read_physical_loop rounds bytes next in
            if header.kind == kind_zero && header.length == 0
            then again
            else (ok (some (header.kind, payload)), next)
      ]

  unfoldable pub read_physical : Bytes → ℕ → Result (Option (ℕ × Bytes)) × ℕ
  read_physical bytes cursor = read_physical_loop (length bytes + 2) bytes cursor

  -- `LogReader::read_record`, for the rounds left.
  unfoldable pub read_record_loop : ℕ → Bytes → ℕ → Bytes → Bool → Result (Option Bytes) × ℕ
  read_record_loop zero bytes cursor scratch in_fragmented = (panicked, cursor)
  read_record_loop (suc rounds) bytes cursor scratch in_fragmented =
      let (result, next) = read_physical bytes cursor in
      elim result [
        | err e ↦ (err e, next)
        | panicked ↦ (panicked, next)
        | ok none ↦ (at_end in_fragmented, next)
        | ok (some (kind, fragment)) ↦ elim (take_fragment kind fragment scratch in_fragmented) [
          | done r ↦ (r, next)
          | more scratch' ↦ read_record_loop rounds bytes next scratch' true
        ]
      ]

  unfoldable pub read_record : Bytes → ℕ → Result (Option Bytes) × ℕ
  read_record bytes cursor = read_record_loop (length bytes + 1) bytes cursor [] false
