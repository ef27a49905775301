-- ===== src/Log/Reading.antt =====
-- One fragment, read from where the writer put it.
use pulsearc_db.Base.{
  ℕ, suc, ◌+◌, ◌-◌, ◌%◌, ◌^◌, ◌≤◌, ◌<◌, Bytes, IsBytes, IsByte, [], ◌∷◌, ◌++◌, length, take, drop,
  ltb, ◌≡◌, ◌≢◌, ap, sym, ◌∙◌, arith, some, append_assoc, append-nil, le→ltb, ==_refl, ◌⊎◌, lt→ltb,
  length-append, inl, Bool-cases, inr, length-replicate,
}
use pulsearc_db.Base.Slices.{
  take_front, drop_front, take-append_length, drop-append_length, drop-drop,
}
use pulsearc_db.Crc32c.{Checksum}
use pulsearc_db.Result.{ok}
use pulsearc_db.Log.{
  block_size, header_size, encode_header, decode_header, record_crc, check_record, record_at,
  read_physical_loop,
}
use pulsearc_db.Log.Header.{length-encode_header, decode-encode_header}
use pulsearc_db.Log.Frames.{header_of, padding, header_offset, frame}
use pulsearc_db.Log.Writing.{padding_aligned, length-frame}

-- A payload that a writer at offset `off`, behind the bytes `pre`, can put into the block.
pub record Placed (off : ℕ) (pre p : Bytes) : Type 0 where
  pub within : off ≤ block_size
  pub aligned : length pre % block_size ≡ off % block_size
  pub fits : header_offset off + (header_size + length p) ≤ block_size
  pub payload : IsBytes p

-- Either there is no padding, or it is what is left of a block that has begun.
padding_cases :
    (off : ℕ)
    → off ≤ block_size
    → (length (padding off) ≡ 0)
      ⊎ ((block_size - off % block_size < header_size)
          × (length (padding off) ≡ block_size - off % block_size))
unfolding padding
padding_cases off h = elim (Bool-cases (ltb (block_size - off) header_size)) [
  | inl short ↦ elim (Bool-cases (ltb 0 (block_size - off))) [
    | inl some_left ↦
        inr (ground arith, ground (arith, length-replicate {A = ℕ} (block_size - off) 0))
    | inr full ↦ inl (ground (arith, length-replicate {A = ℕ} (block_size - off) 0))
  ]
  | inr room ↦ inl (ground arith)
]

module _ (c : Checksum) where
  pub record_crc-lt :
      (kind : ℕ) (p : Bytes) → IsByte kind → IsBytes p → record_crc c kind p < 2 ^ 32
  unfolding record_crc
  record_crc-lt kind p hk hp = c.extend-lt _ p (c.extend-lt 0 (kind ∷ []) (omega arith) (hk, tt)) hp

  module _ (bytes : Bytes) (cursor kind : ℕ) (p rest : Bytes)
      (there : drop cursor bytes ≡ frame c kind p ++ rest)
      (long : length bytes ≡ cursor + (header_size + (length p + length rest)))
      (fits : cursor % block_size + (header_size + length p) ≤ block_size) (hk : IsByte kind)
      (hp : IsBytes p) where
    shape : drop cursor bytes ≡ encode_header [] (header_of c kind p) ++ (p ++ rest)
    unfolding frame
    shape = there ∙ append_assoc (encode_header [] (header_of c kind p)) p rest

    header_bytes : take header_size (drop cursor bytes) ≡ encode_header [] (header_of c kind p)
    header_bytes =
        rw shape (take_front header_size _ (p ++ rest) (length-encode_header (header_of c kind p)))

    payload_bytes : drop (cursor + header_size) bytes ≡ p ++ rest
    payload_bytes =
        sym (drop-drop header_size cursor bytes)
        ∙ rw shape
            (drop_front header_size _ (p ++ rest) (length-encode_header (header_of c kind p)))

    header_read :
        decode_header (encode_header [] (header_of c kind p)) ≡ ok (header_of c kind p, [])
    header_read =
        rw append-nil at
          (decode-encode_header (header_of c kind p) [] (record_crc-lt kind p hk hp) (omega arith))

    whole_length : length p % 2 ^ 16 ≡ length p
    whole_length = omega arith

    payload_checked : check_record c bytes cursor (header_of c kind p) ≡ ok p
    unfolding check_record
    payload_checked = rw (
      whole_length,
      le→ltb (block_size - cursor % block_size - header_size) (length p) (omega arith),
      le→ltb (length bytes) (cursor + header_size + length p) (omega arith),
      payload_bytes,
      take-append_length p rest,
      ==_refl (record_crc c kind p),
    )

    -- The header and the payload are found, and the checks pass.
    record_at_lem : record_at c bytes cursor ≡ ok (header_of c kind p, p)
    unfolding record_at
    record_at_lem = rw (header_bytes, header_read, payload_checked)

    pub read_at_header :
        (rounds : ℕ)
        → kind ≢ 0
        → read_physical_loop c (suc rounds) bytes cursor
          ≡ (ok (some (kind, p)), cursor + (header_size + length p))
    unfolding read_physical_loop
    read_at_header rounds nz =
        rw
          (
            le→ltb (block_size - cursor % block_size) header_size (omega arith),
            le→ltb (length bytes) (cursor + header_size) (omega arith),
            record_at_lem,
          )
          (ground (arith, whole_length))

  -- At the trailer of a block the reader goes on at the next block.
  skip_trailer :
      (rounds : ℕ) (bytes : Bytes) (cursor : ℕ)
      → block_size - cursor % block_size < header_size
      → read_physical_loop c (suc rounds) bytes cursor
        ≡ read_physical_loop c rounds bytes (cursor + (block_size - cursor % block_size))
  unfolding read_physical_loop
  skip_trailer rounds bytes cursor h = rw (lt→ltb (block_size - cursor % block_size) header_size h)

  -- The bytes up to a fragment, its padding, the fragment, and what follows.
  abbrev pub written : ℕ → ℕ → Bytes → Bytes → Bytes → Bytes
  written off kind pre p rest = pre ++ (padding off ++ (frame c kind p ++ rest))

  module _ (off kind : ℕ) (pre p rest : Bytes) (at : Placed off pre p) (hk : IsByte kind)
      (nz : kind ≢ 0) where
    behind_padding :
        drop (length pre + length (padding off)) (written off kind pre p rest)
        ≡ frame c kind p ++ rest
    behind_padding =
        sym (drop-drop (length (padding off)) (length pre) (written off kind pre p rest))
        ∙ rw (drop-append_length pre (padding off ++ (frame c kind p ++ rest)))
            (drop-append_length (padding off) (frame c kind p ++ rest))

    length-written :
        length (written off kind pre p rest)
        ≡ length pre + length (padding off) + (header_size + (length p + length rest))
    length-written = omega (
      arith,
      length-append pre (padding off ++ (frame c kind p ++ rest)),
      length-append (padding off) (frame c kind p ++ rest),
      length-append (frame c kind p) rest,
      length-frame c kind p,
    )

    at_frame :
        (rounds : ℕ)
        → read_physical_loop c
            (suc rounds)
            (written off kind pre p rest)
            (length pre + length (padding off))
          ≡ (ok (some (kind, p)), length pre + length (padding off) + (header_size + length p))
    at_frame rounds =
        read_at_header (written off kind pre p rest) (length pre + length (padding off)) kind p rest
          behind_padding length-written
          (omega (arith, padding_aligned off (length pre) at.within at.aligned)) hk at.payload
          rounds nz

    -- From any position that the writer can stand at, over the padding if there is some, the reader
    -- returns the fragment and stops behind it.
    pub read_frame :
        (rounds : ℕ)
        → read_physical_loop c (suc (suc rounds)) (written off kind pre p rest) (length pre)
          ≡ (ok (some (kind, p)), length pre + length (padding off) + (header_size + length p))
    read_frame rounds = elim (padding_cases off at.within) [
      | inl empty ↦
          ap (read_physical_loop c (suc (suc rounds)) (written off kind pre p rest))
            {x = length pre} (omega arith)
          ∙ at_frame (suc rounds)
      | inr (short, left) ↦
          skip_trailer (suc rounds) (written off kind pre p rest) (length pre) (omega arith)
          ∙ ap (read_physical_loop c (suc rounds) (written off kind pre p rest)) (omega arith)
          ∙ at_frame rounds
    ]
