-- ===== src/Log/Stream/Memory.antt =====
-- Over a file in memory the streaming writer writes what the in-memory writer does.
use pulsearc_db.Base.{
  ℕ, zero, suc, ◌+◌, ◌-◌, ◌%◌, ◌^◌, ◌≤◌, min, Bool, true, false, Bytes, IsBytes, IsByte, [], ◌∷◌,
  ◌++◌, length, take, drop, ltb, ◌==◌, if◌then◌else◌, ◌≡◌, refl, ap, sym, arith, append-nil,
  All-take, All-drop, Bool-cases, inl, inr, length-drop,
}
use pulsearc_db.Base.Slices.{drop-drop}
use pulsearc_db.Result.{Result, ok}
use pulsearc_db.Crc32c.{Checksum}
use pulsearc_db.Log.{
  block_size, header_size, LogRecordHeader, LogWriter, encode_header, fragment_kind, fill_block,
  record_crc, emit_physical_record, add_record_loop, add_record,
}
use pulsearc_db.Log.Header.{encode_header-append}
use pulsearc_db.Log.Reading.{record_crc-lt}
use pulsearc_db.Log.Stream.{
  WritableFile, Stream, pair_fragment, append_part, append_pair, emit_pair, fill_stream,
  add_pair_loop, add_record_pair_to, add_record_to,
}

-- A file that keeps what is appended and never fails.
abbrev pub memory : WritableFile Bytes
memory = record { append = λ d bytes. (ok tt, d ++ bytes); flush = λ d. (ok tt, d) }

abbrev pub stream_of : LogWriter → Stream Bytes
stream_of w = record { dest = w.sink; block_offset = w.block_offset }

either_writer :
    (b : Bool) (x y : LogWriter)
    → ◌≡◌ {A = Result {0} Unit × Stream Bytes}
        (if b then (ok tt, stream_of x) else (ok tt, stream_of y))
        (ok tt, stream_of (if b then x else y))
either_writer true x y = refl
either_writer false x y = refl

module _ (c : Checksum) where
  append_part-memory : (part dest : Bytes) → append_part c memory part dest ≡ (ok tt, dest ++ part)
  unfolding append_part
  append_part-memory [] dest = ap (λ t. (ok tt, t)) (sym (append-nil dest))
  append_part-memory (b ∷ part) dest = refl

  append_pair-memory :
      (dest : Bytes) (kind : ℕ) (p : Bytes)
      → IsByte kind
      → IsBytes p
      → append_pair c memory kind p [] dest ≡ (
        ok tt,
        encode_header dest
              (record { crc = record_crc c kind p; length = length p % 2 ^ 16; kind = kind })
            ++ p,
      )
  unfolding append_pair append_part record_crc
  append_pair-memory dest kind p hk hp =
      let header : LogRecordHeader = record {
        crc = record_crc c kind p;
        length = length p % 2 ^ 16;
        kind = kind;
      } in
      let size : (length p + 0) % 2 ^ 16 ≡ length p % 2 ^ 16 = omega arith in
      rw (
        c.extend-nil (record_crc c kind p) (record_crc-lt c kind p hk hp),
        size,
        append_part-memory p,
        sym (encode_header-append dest header),
      )

  emit_pair-memory :
      (w : LogWriter) (kind : ℕ) (p : Bytes)
      → IsByte kind
      → IsBytes p
      → emit_pair c memory (stream_of w) kind p []
        ≡ (ok tt, stream_of (emit_physical_record c w kind p))
  unfolding emit_pair emit_physical_record
  emit_pair-memory w kind p hk hp =
      let size : w.block_offset + (header_size + (length p + 0))
          ≡ w.block_offset + (header_size + length p) =
        omega arith in
      rw (append_pair-memory w.sink kind p hk hp, size)

  fill_stream-memory :
      (w : LogWriter) → fill_stream c memory (stream_of w) ≡ (ok tt, stream_of (fill_block w))
  unfolding fill_stream fill_block
  fill_stream-memory w = elim (Bool-cases (ltb (block_size - w.block_offset) header_size)) [
    | inl short ↦ elim (Bool-cases (ltb 0 (block_size - w.block_offset))) [
      | inl some_left ↦ rw (short, some_left)
      | inr full ↦ rw (short, full)
    ]
    | inr room ↦ rw room
  ]

  -- The fragment of a record in one part.
  pair_fragment_one :
      (p : Bytes) (offset n : ℕ)
      → offset + n ≤ length p
      → pair_fragment p [] offset n ≡ (take n (drop offset p), [])
  unfolding pair_fragment
  pair_fragment_one p offset n h = elim (Bool-cases (ltb offset (length p))) [
    | inl inside ↦
        let whole : min (length p - offset) n ≡ n = omega arith in
        let nothing : n - n ≡ 0 = omega arith in rw (inside, whole, nothing)
    | inr behind ↦ let empty : n ≡ 0 = ground arith in rw (behind, empty)
  ]

  fragment_kind-IsByte : (begin end : Bool) → IsByte (fragment_kind begin end)
  unfolding fragment_kind
  fragment_kind-IsByte begin end = ground arith

  -- From any offset in the record, the two loops do the same.
  add_pair_loop-memory :
      (rounds : ℕ) (p : Bytes) (offset left : ℕ) (begin : Bool) (w : LogWriter)
      → offset + left ≡ length p
      → IsBytes p
      → add_pair_loop c memory rounds p [] offset left begin (stream_of w)
        ≡ (ok tt, stream_of (add_record_loop c rounds w (drop offset p) begin))
  unfolding add_pair_loop add_record_loop
  add_pair_loop-memory zero p offset left begin w e hp = refl
  add_pair_loop-memory (suc rounds) p offset left begin w e hp =
      let w1 = fill_block w in
      let n = min left (block_size - w1.block_offset - header_size) in
      let size : length (drop offset p) ≡ left = omega (arith, length-drop offset p) in
      let kind = fragment_kind begin (left == n) in
      let part = take n (drop offset p) in
      let hd : IsBytes part = All-take IsByte n (drop offset p) (All-drop IsByte offset p hp) in
      let emitted = emit_pair-memory w1 kind part (fragment_kind-IsByte begin (left == n)) hd in
      let w2 = emit_physical_record c w1 kind part in
      let later = add_pair_loop-memory rounds p (offset + n) (left - n) false w2 (omega arith) hp in
      rw
        (
          fill_stream-memory w,
          size,
          pair_fragment_one p offset n (omega arith),
          emitted,
          later,
          sym (drop-drop n offset p),
        )
        (either_writer (left == n) w2 (add_record_loop c rounds w2 (drop n (drop offset p)) false))

  -- Over a file in memory, `add_record_to` succeeds with a record of bytes, and leaves the file and the
  -- offset that `add_record` leaves as its sink and offset.
  pub add_record_to-memory :
      (w : LogWriter) (payload : Bytes)
      → IsBytes payload
      → add_record_to c memory (stream_of w) payload ≡ (ok tt, stream_of (add_record c w payload))
  unfolding add_record_to add_record_pair_to add_record
  add_record_to-memory w payload hp =
      let total : length payload + 0 ≡ length payload = omega arith in
      rw total (
        add_pair_loop-memory (length payload + 2) payload 0 (length payload) true w (omega arith)
          hp)
