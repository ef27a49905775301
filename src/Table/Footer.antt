-- ===== src/Table/Footer.antt =====
-- The footer of a table has a fixed length and is read back from its bytes.
use pulsearc_db.Base.{
  ℕ, ◌-◌, ◌≤◌, Bytes, [], ◌++◌, length, replicate, some, ◌≡◌, refl, arith, append_assoc, append-nil,
  length-append, length-replicate, le→ltb, ltb→le, ltb, if◌then◌else◌, Bool-cases, inl, inr,
}
use pulsearc_db.Base.Slices.{take_front, drop_front}
use pulsearc_db.Result.{ok}
use pulsearc_db.Coding.{to_le_bytes, from_le_bytes, put_fixed64, decode_fixed64}
use pulsearc_db.Coding.Fixed.{length-to_le_bytes}
use pulsearc_db.Block.{encode_handle}
use pulsearc_db.Block.Handle.{
  IsHandle, encode_handle-append, length-encode_handle, decode_handle-encode_handle,
}
use pulsearc_db.Table.{magic, TableFooter, encode_footer, decode_handles, decode_footer}

pub record IsFooter (footer : TableFooter) : Type 0 where
  pub metaindex_fits : IsHandle footer.metaindex
  pub index_fits : IsHandle footer.index

-- The two handles and the zeros behind them: forty bytes.
handles : TableFooter → Bytes
handles footer = encode_handle footer.metaindex [] ++ encode_handle footer.index []

padded : TableFooter → Bytes
padded footer = handles footer ++ replicate (40 - length (handles footer)) 0

length-handles : (footer : TableFooter) → IsFooter footer → length (handles footer) ≤ 40
unfolding handles
length-handles footer h = omega (
  arith,
  length-append (encode_handle footer.metaindex []) (encode_handle footer.index []),
  length-encode_handle footer.metaindex h.metaindex_fits,
  length-encode_handle footer.index h.index_fits,
)

length-padded : (footer : TableFooter) → IsFooter footer → length (padded footer) ≡ 40
unfolding padded
length-padded footer h = omega (
  arith,
  length-handles footer h,
  length-append (handles footer) (replicate (40 - length (handles footer)) 0),
  length-replicate {A = ℕ} (40 - length (handles footer)) 0,
)

pad :
    (both dst : Bytes)
    → length both ≤ 40
    → (if ltb (length both) 40
        then (dst ++ both) ++ replicate (40 - length both) 0
        else (dst ++ both))
      ≡ dst ++ (both ++ replicate (40 - length both) 0)
pad both dst h = elim (Bool-cases (ltb (length both) 40)) [
  | inl short ↦ rw short (append_assoc dst both (replicate {A = ℕ} (40 - length both) 0))
  | inr full ↦
      let no_room : 40 - length both ≡ 0 = omega (arith, ltb→le (length both) 40 full) in
      rw (full, no_room, append-nil both)
]

encode_footer_lem :
    (footer : TableFooter) (dst : Bytes)
    → IsFooter footer
    → encode_footer footer dst ≡ dst ++ (padded footer ++ to_le_bytes 8 magic)
unfolding encode_footer put_fixed64 padded handles
encode_footer_lem footer dst h =
    let first = encode_handle footer.metaindex [] in
    let both = first ++ encode_handle footer.index [] in
    let zeros = replicate {A = ℕ} (40 - length both) 0 in
    let room : length (dst ++ both) - length dst ≡ length both =
      omega (arith, length-append dst both) in
    rw
      (
        encode_handle-append footer.index (encode_handle footer.metaindex dst),
        encode_handle-append footer.metaindex dst,
        append_assoc dst first (encode_handle footer.index []),
        room,
        pad both dst (length-handles footer h),
      )
      (append_assoc dst (both ++ zeros) (to_le_bytes 8 magic))

decode_handles-padded :
    (footer : TableFooter) → IsFooter footer → decode_handles (padded footer) ≡ ok footer
unfolding decode_handles padded handles
decode_handles-padded footer h =
    let first = encode_handle footer.metaindex [] in
    let second = encode_handle footer.index [] in
    let zeros = replicate {A = ℕ} (40 - length (first ++ second)) 0 in
    rw (
      append_assoc first second zeros,
      decode_handle-encode_handle footer.metaindex (second ++ zeros) h.metaindex_fits,
      decode_handle-encode_handle footer.index zeros h.index_fits,
    )

-- A footer of u64 handles takes forty-eight bytes.
pub length-encode_footer :
    (footer : TableFooter) → IsFooter footer → length (encode_footer footer []) ≡ 48
length-encode_footer footer h = rw (encode_footer_lem footer [] h) (
    omega (
      arith,
      length-append (padded footer) (to_le_bytes 8 magic),
      length-padded footer h,
      length-to_le_bytes 8 magic,
    ))

decode_magic : decode_fixed64 (to_le_bytes 8 magic) ≡ some magic
unfolding decode_fixed64 to_le_bytes from_le_bytes
decode_magic = refl

-- A footer of u64 handles is decoded from its encoding, and what follows is left.
pub decode_footer-encode_footer :
    (footer : TableFooter) (rest : Bytes)
    → IsFooter footer
    → decode_footer (encode_footer footer [] ++ rest) ≡ ok (footer, rest)
unfolding decode_footer
decode_footer-encode_footer footer rest h =
    let number = to_le_bytes 8 magic in
    let whole = padded footer ++ number in
    let size : length whole ≡ 48 = omega (
      arith,
      length-append (padded footer) number,
      length-padded footer h,
      length-to_le_bytes 8 magic,
    ) in
    rw (
      encode_footer_lem footer [] h,
      le→ltb (length (whole ++ rest)) 48 (omega (arith, length-append whole rest)),
      take_front 48 whole rest size,
      drop_front 40 (padded footer) number (length-padded footer h),
      decode_magic,
      drop_front 48 whole rest size,
      append_assoc (padded footer) number rest,
      take_front 40 (padded footer) (number ++ rest) (length-padded footer h),
      decode_handles-padded footer h,
    )
