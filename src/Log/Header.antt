-- ===== src/Log/Header.antt =====
-- The seven bytes of a fragment's header.
use pulsearc_db.Base.{Bytes, [], ◌++◌, ◌≡◌, refl, IsU16, IsU32, length, append_assoc, ◌∷◌}
use pulsearc_db.Coding.{to_le_bytes, put_fixed16, put_fixed32, get_u8}
use pulsearc_db.Coding.Fixed.{get_fixed16-put_fixed16, get_fixed32-put_fixed32}
use pulsearc_db.Crc32c.{mask, unmask-mask, mask-lt}
use pulsearc_db.Log.{LogRecordHeader, encode_header, decode_header}
use pulsearc_db.Result.{ok}

-- The three fields, one behind the other.
header_fields :
    (dst : Bytes) (h : LogRecordHeader)
    → encode_header dst h
      ≡ dst ++ (put_fixed32 [] (mask h.crc) ++ (put_fixed16 [] h.length ++ h.kind ∷ []))
unfolding encode_header put_fixed16 put_fixed32
header_fields dst h = simp append_assoc

pub encode_header-append :
    (dst : Bytes) (h : LogRecordHeader) → encode_header dst h ≡ dst ++ encode_header [] h
encode_header-append dst h = rw (header_fields dst h, header_fields [] h)

pub length-encode_header : (h : LogRecordHeader) → length (encode_header [] h) ≡ 7
unfolding encode_header put_fixed16 put_fixed32 to_le_bytes
length-encode_header h = refl

-- A header whose fields fit their types is read back from the bytes written for it, and what follows
-- is left.
pub decode-encode_header :
    (h : LogRecordHeader) (rest : Bytes)
    → IsU32 h.crc
    → IsU16 h.length
    → decode_header (encode_header [] h ++ rest) ≡ ok (h, rest)
unfolding decode_header get_u8
decode-encode_header h rest hc hl = rw (
  header_fields [] h,
  append_assoc (put_fixed32 [] (mask h.crc)) (put_fixed16 [] h.length ++ h.kind ∷ []) rest,
  append_assoc (put_fixed16 [] h.length) (h.kind ∷ []) rest,
  get_fixed32-put_fixed32 (mask h.crc) (put_fixed16 [] h.length ++ h.kind ∷ rest) (mask-lt h.crc),
  get_fixed16-put_fixed16 h.length (h.kind ∷ rest) hl,
  unmask-mask h.crc hc,
)
