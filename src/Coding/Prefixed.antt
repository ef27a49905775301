-- ===== src/Coding/Prefixed.antt =====
-- Length-prefixed byte strings.
use native.Mathlib.Nat.{mod-eq_of_lt}
use pulsearc_db.Base.{
  ◌+◌, ◌^◌, ◌<◌, Bytes, some, [], ◌++◌, length, le→ltb, ◌≡◌, arith, length-append, append_assoc,
  length-take, length-drop,
}
use pulsearc_db.Base.Slices.{take-append_length, drop-append_length}
use pulsearc_db.Base.Options.{>>=-eq-some}
use pulsearc_db.Coding.{
  put_varint32, get_varint32, put_length_prefixed_slice, get_length_prefixed_slice,
}
use pulsearc_db.Coding.Varint.{put_varint32-append, get_varint32-put_varint32}
use pulsearc_db.Coding.VarintBounds.{get_varint32_takes}

pub put_length_prefixed_slice-append :
    (dst value : Bytes)
    → put_length_prefixed_slice dst value ≡ dst ++ put_length_prefixed_slice [] value
unfolding put_length_prefixed_slice
put_length_prefixed_slice-append dst value = simp (put_varint32-append dst, append_assoc)

-- A byte string whose length fits a u32 is read back from what the writer appends, and what follows
-- is left.
pub get_length_prefixed_slice-put :
    (value rest : Bytes)
    → length value < 2 ^ 32
    → get_length_prefixed_slice (put_length_prefixed_slice [] value ++ rest) ≡ some (value, rest)
unfolding get_length_prefixed_slice put_length_prefixed_slice
get_length_prefixed_slice-put value rest h = rw (
  mod-eq_of_lt h,
  append_assoc (put_varint32 [] (length value)) value rest,
  get_varint32-put_varint32 (length value) (value ++ rest) h,
  le→ltb (length (value ++ rest)) (length value) (omega (arith, length-append value rest)),
  take-append_length value rest,
  drop-append_length value rest,
)

-- Whatever the input, a byte string that is read is shorter than what it is read from.
pub get_length_prefixed_slice_takes :
    (input value rest : Bytes)
    → get_length_prefixed_slice input ≡ some (value, rest)
    → length value + length rest < length input
unfolding get_length_prefixed_slice
get_length_prefixed_slice_takes input value rest e =
    let ((len, after), read, split) = >>=-eq-some (get_varint32 input) _ e in
    ground
      (arith, get_varint32_takes len input after read, length-take len after, length-drop len after)
