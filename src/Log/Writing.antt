-- ===== src/Log/Writing.antt =====
-- The writer keeps its offset in step with the sink, and can be rewound.
use pulsearc_db.Base.{
  ℕ, zero, suc, ◌+◌, ◌-◌, ◌%◌, ◌≤◌, Bool, Bytes, length, take, drop, ◌==◌, ◌≡◌, arith, some,
  length-replicate, length-take, length-append, ap, true, ◌∙◌, le→ltb, [], Bool-cases, ◌++◌, inl,
  inr, false,
}
use pulsearc_db.Base.Slices.{take-append_length}
use pulsearc_db.Crc32c.{Checksum}
use pulsearc_db.Log.{
  block_size, header_size, fragment_kind, LogWriter, add_record, mark, rewind_to, encode_header,
}
use pulsearc_db.Log.Header.{length-encode_header}
use pulsearc_db.Log.Frames.{
  header_of, padding, header_offset, fragment_size, frame, frames, final_offset,
  add_record_loop-frames,
}

-- The offset in the block is the position in the sink; a block that is just full counts as either.
pub record IsAligned (w : LogWriter) : Type 0 where
  pub within : w.block_offset ≤ block_size
  pub aligned : length w.sink % block_size ≡ w.block_offset % block_size

-- Behind the padding there is room for a header, at the offset that the writer believes.
pub header_offset-le : (off : ℕ) → off ≤ block_size → header_offset off + header_size ≤ block_size
unfolding header_offset
header_offset-le off h = ground arith

pub padding_aligned :
    (off p : ℕ)
    → off ≤ block_size
    → p % block_size ≡ off % block_size
    → (p + length (padding off)) % block_size ≡ header_offset off
unfolding padding header_offset
padding_aligned off p h e = ground (arith, length-replicate {A = ℕ} (block_size - off) 0)

pub fragment_size-le :
    (off n : ℕ)
    → off ≤ block_size
    → header_offset off + (header_size + fragment_size off n) ≤ block_size
unfolding fragment_size
fragment_size-le off n h = omega (arith, header_offset-le off h)

pub length-take_fragment :
    (off : ℕ) (left : Bytes)
    → length (take (fragment_size off (length left)) left) ≡ fragment_size off (length left)
unfolding fragment_size
length-take_fragment off left = omega (arith, length-take (fragment_size off (length left)) left)

round_aligned :
    (off p m : ℕ)
    → off ≤ block_size
    → p % block_size ≡ off % block_size
    → (p + length (padding off) + m) % block_size ≡ (header_offset off + m) % block_size
round_aligned off p m h e = omega (arith, padding_aligned off p h e)

module _ (c : Checksum) where
  pub length-frame : (kind : ℕ) (p : Bytes) → length (frame c kind p) ≡ header_size + length p
  unfolding frame
  length-frame kind p =
      length-append (encode_header [] (header_of c kind p)) p
      ∙ ap (λ (n : ℕ). n + length p) (length-encode_header (header_of c kind p))

  final_offset-le :
      (rounds off : ℕ) (left : Bytes) (begin : Bool)
      → off ≤ block_size
      → final_offset c rounds off left begin ≤ block_size
  unfolding final_offset
  final_offset-le zero off left begin h = h
  final_offset-le (suc rounds) off left begin h =
      let n = fragment_size off (length left) in
      let fits : header_offset off + (header_size + length (take n left)) ≤ block_size =
        omega (arith, fragment_size-le off (length left) h, length-take_fragment off left) in
      ground (
        arith,
        final_offset-le rounds (header_offset off + (header_size + length (take n left)))
            (drop n left) Bool.false fits,
      )

  frames_aligned :
      (rounds off p : ℕ) (left : Bytes) (begin : Bool)
      → off ≤ block_size
      → p % block_size ≡ off % block_size
      → (p + length (frames c rounds off left begin)) % block_size
        ≡ final_offset c rounds off left begin % block_size
  unfolding frames final_offset
  frames_aligned zero off p left begin h e = ap (λ (n : ℕ). n % block_size) (omega arith) ∙ e
  frames_aligned (suc rounds) off p left begin h e =
      let n = fragment_size off (length left) in
      let here = take n left in
      let next = header_offset off + (header_size + length here) in
      let p' = p + length (padding off) + (header_size + length here) in
      let step = round_aligned off p (header_size + length here) h e in
      let fits : next ≤ block_size =
        omega (arith, fragment_size-le off (length left) h, length-take_fragment off left) in
      elim (Bool-cases (length left == n)) [
        | inl end ↦
            let f = frame c (fragment_kind begin true) here in
            ground (
              arith,
              step,
              length-append (padding off) (f ++ []),
              length-append f [],
              length-frame (fragment_kind begin true) here,
            )
        | inr go ↦
            let f = frame c (fragment_kind begin false) here in
            let behind = frames c rounds next (drop n left) false in
            ground (
              arith,
              length-append (padding off) (f ++ behind),
              length-append f behind,
              length-frame (fragment_kind begin false) here,
              frames_aligned rounds next p' (drop n left) false fits step,
            )
      ]

  -- If the writer's offset is in step with its sink, it still is behind a record that is added.
  pub add_record-IsAligned :
      {w : LogWriter} (payload : Bytes) → IsAligned w → IsAligned (add_record c w payload)
  unfolding add_record
  add_record-IsAligned {w} payload v =
      let r = length payload + 2 in
      let off = w.block_offset in
      let bytes = frames c r off payload true in
      rw (add_record_loop-frames c r w payload true) (record {
        within = final_offset-le r off payload true v.within;
        aligned =
            rw (length-append w.sink bytes)
              (frames_aligned r off (length w.sink) payload true v.within v.aligned);
      })

  -- After any record the writer can go back to a mark set before it, and is as it was.
  pub rewind_to-add_record :
      (w : LogWriter) (payload : Bytes) → rewind_to (add_record c w payload) (mark w) ≡ some w
  unfolding rewind_to mark add_record
  rewind_to-add_record w payload =
      let r = length payload + 2 in
      let bytes = frames c r w.block_offset payload true in
      rw (
        add_record_loop-frames c r w payload true,
        le→ltb (length (w.sink ++ bytes)) (length w.sink)
            (omega (arith, length-append w.sink bytes)),
        take-append_length w.sink bytes,
      )
