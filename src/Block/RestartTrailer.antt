-- ===== src/Block/RestartTrailer.antt =====
-- The restart offsets are read back from the trailer.
use pulsearc_db.Base.{
  ℕ, ◌*◌, ◌-◌, ◌%◌, ◌^◌, ◌<◌, Bytes, [], ◌∷◌, ◌++◌, List, All, length, ◌≡◌, refl, sym, ◌∙◌, arith,
  append_assoc, append-nil, length-append, le→ltb, ==_refl, IsU32,
}
use pulsearc_db.Base.Slices.{drop-append_length}
use pulsearc_db.Result.{ok}
use pulsearc_db.Coding.{to_le_bytes, put_fixed32}
use pulsearc_db.Coding.Fixed.{decode_fixed32_field, length-to_le_bytes, take_field, drop_field}
use pulsearc_db.Block.{put_restarts, encode_restarts, get_restarts, decode_restarts}

unfoldable pub restart_bytes : List ℕ → Bytes
restart_bytes [] = []
restart_bytes (item ∷ items) = to_le_bytes 4 item ++ restart_bytes items

pub put_restarts_lem :
    (items : List ℕ) (dst : Bytes) → put_restarts items dst ≡ dst ++ restart_bytes items
unfolding put_restarts restart_bytes put_fixed32
put_restarts_lem [] dst = sym (append-nil dst)
put_restarts_lem (item ∷ items) dst =
    put_restarts_lem items (dst ++ to_le_bytes 4 item)
    ∙ append_assoc dst (to_le_bytes 4 item) (restart_bytes items)

pub length-restart_bytes : (items : List ℕ) → length (restart_bytes items) ≡ length items * 4
unfolding restart_bytes
length-restart_bytes [] = refl
length-restart_bytes (item ∷ items) = omega (
  arith,
  length-append (to_le_bytes 4 item) (restart_bytes items),
  length-to_le_bytes 4 item,
  length-restart_bytes items,
)

get_restarts_lem :
    (items : List ℕ) (rest : Bytes)
    → All IsU32 items
    → get_restarts (length items) (restart_bytes items ++ rest) ≡ ok items
unfolding get_restarts restart_bytes
get_restarts_lem [] rest h = refl
get_restarts_lem (item ∷ items) rest (h, hs) = rw (
  append_assoc (to_le_bytes 4 item) (restart_bytes items) rest,
  take_field 4 item (restart_bytes items ++ rest),
  drop_field 4 item (restart_bytes items ++ rest),
  decode_fixed32_field item h,
  get_restarts_lem items rest hs,
)

-- Fewer than 2 ^ 32 restart offsets of 32 bits are decoded from their trailer.
pub decode_restarts-encode_restarts :
    (items : List ℕ)
    → All IsU32 items
    → length items < 2 ^ 32
    → decode_restarts (encode_restarts items []) ≡ ok items
unfolding decode_restarts encode_restarts put_fixed32
decode_restarts-encode_restarts items h small =
    let body = restart_bytes items in
    let count : length items % 2 ^ 32 ≡ length items = omega arith in
    let tail = to_le_bytes 4 (length items) in
    let whole : length (body ++ tail) - 4 ≡ length body =
      omega (arith, length-append body tail, length-to_le_bytes 4 (length items)) in
    rw (
      put_restarts_lem items [],
      count,
      le→ltb (length (body ++ tail)) 4
          (omega (arith, length-append body tail, length-to_le_bytes 4 (length items))),
      whole,
      drop-append_length body tail,
      decode_fixed32_field (length items) small,
      length-restart_bytes items,
      ==_refl (length items * 4),
      get_restarts_lem items tail h,
    )
