-- ===== src/Coding.antt =====
-- src/coding/coding.rs: fixed-width and variable-width integers, length-prefixed byte strings.
-- A writer takes the `Vec<u8>` it appends to and returns the longer one. A cursor-style reader takes
-- the input and returns the value with the input that is left. `none` from `decode_fixed16`,
-- `decode_fixed32`, `decode_fixed64`, `encode_fixed64` and the `encode_varint` family is the panic of
-- the slice index; the cursor-style readers test the length first, and their `none` is the source's.
pub mod Varint
pub mod VarintBounds
pub mod Fixed
pub mod Prefixed
mod Examples
use pulsearc_db.Base.{
  ℕ, zero, suc, ◌+◌, ◌*◌, ◌/◌, ◌%◌, ◌^◌, bit_and, bit_or, Bytes, Option, none, some, List, [], ◌∷◌,
  ◌++◌, length, take, drop, set, ltb, ◌==◌, if◌then◌else◌,
}
use pulsearc_db.Base.Options.{◌>>=◌}

-- `to_le_bytes` of an integer of `n` bytes, and `from_le_bytes`.
unfoldable pub to_le_bytes : ℕ → ℕ → Bytes
to_le_bytes zero v = []
to_le_bytes (suc n) v = v % 256 ∷ to_le_bytes n (v / 256)

unfoldable pub from_le_bytes : Bytes → ℕ
from_le_bytes [] = 0
from_le_bytes (b ∷ bs) = b + 256 * from_le_bytes bs

unfoldable pub put_fixed16 : Bytes → ℕ → Bytes
put_fixed16 dst value = dst ++ to_le_bytes 2 value

unfoldable pub put_fixed32 : Bytes → ℕ → Bytes
put_fixed32 dst value = dst ++ to_le_bytes 4 value

unfoldable pub put_fixed64 : Bytes → ℕ → Bytes
put_fixed64 dst value = dst ++ to_le_bytes 8 value

unfoldable pub encode_fixed64 : Bytes → ℕ → Option Bytes
encode_fixed64 dst value =
    if ltb (length dst) 8 then none else some (to_le_bytes 8 value ++ drop 8 dst)

unfoldable pub decode_fixed16 : Bytes → Option ℕ
decode_fixed16 src = if ltb (length src) 2 then none else some (from_le_bytes (take 2 src))

unfoldable pub decode_fixed32 : Bytes → Option ℕ
decode_fixed32 src = if ltb (length src) 4 then none else some (from_le_bytes (take 4 src))

unfoldable pub decode_fixed64 : Bytes → Option ℕ
decode_fixed64 src = if ltb (length src) 8 then none else some (from_le_bytes (take 8 src))

unfoldable pub get_u8 : Bytes → Option (ℕ × Bytes)
get_u8 [] = none
get_u8 (first ∷ rest) = some (first, rest)

unfoldable pub get_fixed16 : Bytes → Option (ℕ × Bytes)
get_fixed16 input =
    if ltb (length input) 2
    then none
    else decode_fixed16 input >>= λ value. some (value, drop 2 input)

unfoldable pub get_fixed32 : Bytes → Option (ℕ × Bytes)
get_fixed32 input =
    if ltb (length input) 4
    then none
    else decode_fixed32 input >>= λ value. some (value, drop 4 input)

unfoldable pub get_fixed64 : Bytes → Option (ℕ × Bytes)
get_fixed64 input =
    if ltb (length input) 8
    then none
    else decode_fixed64 input >>= λ value. some (value, drop 8 input)

-- `((value & 0x7f) as u8) | 0x80`
abbrev pub group_byte : ℕ → ℕ
group_byte value = bit_or (bit_and value 0x7f % 256) 0x80

-- The rounds of the `while` loop are counted down from `value` itself, which falls by more than one
-- in each: at zero rounds `value` is 0 and the loop is over.
pub put_varint_loop : ℕ → Bytes → ℕ → Bytes
put_varint_loop zero dst value = dst ++ value % 256 ∷ []
put_varint_loop (suc rounds) dst value =
    let more = put_varint_loop rounds (dst ++ group_byte value ∷ []) (value / 128) in
    if ltb value 0x80 then dst ++ value % 256 ∷ [] else more

unfoldable pub put_varint64 : Bytes → ℕ → Bytes
unfolding put_varint_loop
put_varint64 dst value = put_varint_loop value dst value

unfoldable pub put_varint32 : Bytes → ℕ → Bytes
put_varint32 dst value = put_varint64 dst value

-- `dst[offset] = byte`
write_at : Bytes → ℕ → ℕ → Option Bytes
write_at dst offset byte = if ltb offset (length dst) then some (set dst offset byte) else none

encode_varint_loop : ℕ → Bytes → ℕ → ℕ → Option (Bytes × ℕ)
unfolding write_at
encode_varint_loop zero dst offset value =
    write_at dst offset (value % 256) >>= λ dst'. some (dst', offset + 1)
encode_varint_loop (suc rounds) dst offset value =
    let more =
      (write_at dst offset (group_byte value) >>= λ dst'.
      encode_varint_loop rounds dst' (offset + 1) (value / 128)) in
    if ltb value 0x80
    then (write_at dst offset (value % 256) >>= λ dst'. some (dst', offset + 1))
    else more

-- The slice after the writes, and the number of bytes written.
unfoldable pub encode_varint64 : Bytes → ℕ → Option (Bytes × ℕ)
unfolding encode_varint_loop
encode_varint64 dst value = encode_varint_loop value dst 0 value

unfoldable pub encode_varint32 : Bytes → ℕ → Option (Bytes × ℕ)
encode_varint32 dst value = encode_varint64 dst value

-- One loop for both widths: `width` is the number of bits of the result's type, in which `<<`
-- drops what it shifts out, and `rounds` the number of shifts left in the range of the `for`.
get_varint_loop : ℕ → ℕ → ℕ → ℕ → Bytes → Option (ℕ × Bytes)
get_varint_loop width zero shift result cursor = none
get_varint_loop width (suc rounds) shift result [] = none
get_varint_loop width (suc rounds) shift result (byte ∷ rest) =
    let group = bit_and byte 0x7f * 2 ^ shift % 2 ^ width in
    let more = get_varint_loop width rounds (shift + 7) (bit_or result group) rest in
    if bit_and byte 0x80 == 0
    then some (bit_or result (byte * 2 ^ shift % 2 ^ width), rest)
    else more

unfoldable pub get_varint32 : Bytes → Option (ℕ × Bytes)
unfolding get_varint_loop
get_varint32 input = get_varint_loop 32 5 0 0 input

unfoldable pub get_varint64 : Bytes → Option (ℕ × Bytes)
unfolding get_varint_loop
get_varint64 input = get_varint_loop 64 10 0 0 input

varint_length_loop : ℕ → ℕ → ℕ → ℕ
varint_length_loop zero value len = len
varint_length_loop (suc rounds) value len =
    let more = varint_length_loop rounds (value / 128) (len + 1) in
    if ltb value 0x80 then len else more

unfoldable pub varint_length : ℕ → ℕ
unfolding varint_length_loop
varint_length value = varint_length_loop value value 1

-- `value.len() as u32` keeps the low 32 bits of the length.
unfoldable pub put_length_prefixed_slice : Bytes → Bytes → Bytes
put_length_prefixed_slice dst value = put_varint32 dst (length value % 2 ^ 32) ++ value

-- Where the payload is short the source has moved the cursor past the prefix; every caller gives up.
unfoldable pub get_length_prefixed_slice : Bytes → Option (Bytes × Bytes)
get_length_prefixed_slice input = get_varint32 input >>= λ (len, rest).
    if ltb (length rest) len then none else some (take len rest, drop len rest)
