-- ===== src/Block/Handle.antt =====
-- Handles and trailers are read back from their bytes.
use pulsearc_db.Base.{
  Bytes, [], ◌∷◌, ◌++◌, length, ◌≤◌, ◌<◌, ◌^◌, ◌≡◌, ap, sym, ◌∙◌, arith, append_assoc,
  length-append,
}
use pulsearc_db.Result.{ok}
use pulsearc_db.Crc32c.{mask, unmask-mask, mask-lt}
use pulsearc_db.Coding.{put_varint64, get_u8}
use pulsearc_db.Coding.Varint.{put_varint64-append, get_varint64-put_varint64}
use pulsearc_db.Coding.VarintBounds.{put_varint64-shape}
use pulsearc_db.Coding.Fixed.{get_fixed32-put_fixed32, put_fixed32-append}
use pulsearc_db.Block.{
  BlockHandle, encode_handle, decode_handle, BlockTrailer, encode_trailer, decode_trailer,
}

pub record IsHandle (handle : BlockHandle) : Type 0 where
  pub offset_fits : handle.offset < 2 ^ 64
  pub size_fits : handle.size < 2 ^ 64

encode_handle_lem :
    (handle : BlockHandle) (dst : Bytes)
    → encode_handle handle dst
      ≡ dst ++ (put_varint64 [] handle.offset ++ put_varint64 [] handle.size)
unfolding encode_handle
encode_handle_lem handle dst =
    rw
      (
        put_varint64-append (put_varint64 dst handle.offset) handle.size,
        put_varint64-append dst handle.offset,
      )
      (append_assoc dst (put_varint64 [] handle.offset) (put_varint64 [] handle.size))

pub encode_handle-append :
    (handle : BlockHandle) (dst : Bytes) → encode_handle handle dst ≡ dst ++ encode_handle handle []
encode_handle-append handle dst =
    encode_handle_lem handle dst ∙ ap (λ t. dst ++ t) (sym (encode_handle_lem handle []))

-- A handle takes at most twenty bytes.
pub length-encode_handle :
    (handle : BlockHandle) → IsHandle handle → length (encode_handle handle []) ≤ 20
length-encode_handle handle h =
    let (_, first) = put_varint64-shape handle.offset h.offset_fits in
    let (_, second) = put_varint64-shape handle.size h.size_fits in
    rw (encode_handle_lem handle [])
      (omega (arith, length-append (put_varint64 [] handle.offset) (put_varint64 [] handle.size)))

-- A handle of u64 numbers is decoded from its encoding, and what follows is left.
pub decode_handle-encode_handle :
    (handle : BlockHandle) (rest : Bytes)
    → IsHandle handle
    → decode_handle (encode_handle handle [] ++ rest) ≡ ok (handle, rest)
unfolding decode_handle
decode_handle-encode_handle handle rest h =
    let second = put_varint64 [] handle.size in
    rw (
      encode_handle_lem handle [],
      append_assoc (put_varint64 [] handle.offset) second rest,
      get_varint64-put_varint64 handle.offset (second ++ rest) h.offset_fits,
      get_varint64-put_varint64 handle.size rest h.size_fits,
    )

-- A trailer with a u32 checksum is decoded from its encoding, and what follows is left.
pub decode_trailer-encode_trailer :
    (trailer : BlockTrailer) (rest : Bytes)
    → trailer.crc < 2 ^ 32
    → decode_trailer (encode_trailer trailer [] ++ rest) ≡ ok (trailer, rest)
unfolding decode_trailer encode_trailer get_u8
decode_trailer-encode_trailer trailer rest h = rw (
  put_fixed32-append (trailer.kind ∷ []) (mask trailer.crc),
  get_fixed32-put_fixed32 (mask trailer.crc) rest (mask-lt trailer.crc),
  unmask-mask trailer.crc h,
)
