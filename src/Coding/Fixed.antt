-- ===== src/Coding/Fixed.antt =====
-- Fixed-width integers: the readers take back what the writers append, and the bytes are unique.
use native.Mathlib.Nat.{pow-suc}
use pulsearc_db.Base.{
  ℕ, zero, suc, ◌/◌, ◌^◌, ◌<◌, Bytes, some, [], ◌∷◌, ◌++◌, length, take, drop, ◌≡◌, refl, ap, arith,
  IsBytes, IsU16, IsU32, IsU64, length-append, ltb, le→ltb, sym, false, ◌∙◌, append-nil,
}
use pulsearc_db.Base.Slices.{take-append_length, drop-append_length}
use pulsearc_db.Coding.{
  to_le_bytes, from_le_bytes, put_fixed16, put_fixed32, put_fixed64, decode_fixed16, decode_fixed32,
  decode_fixed64, get_fixed16, get_fixed32, get_fixed64,
}

pub length-to_le_bytes : (n v : ℕ) → length (to_le_bytes n v) ≡ n
unfolding to_le_bytes
length-to_le_bytes zero v = refl
length-to_le_bytes (suc n) v = ap suc (length-to_le_bytes n (v / 256))

pub to_le_bytes-IsBytes : (n v : ℕ) → IsBytes (to_le_bytes n v)
unfolding to_le_bytes
to_le_bytes-IsBytes zero v = tt
to_le_bytes-IsBytes (suc n) v = (omega arith, to_le_bytes-IsBytes n (v / 256))

-- The bytes of an integer that fits them have its value.
pub from-to_le_bytes : (n v : ℕ) → v < 256 ^ n → from_le_bytes (to_le_bytes n v) ≡ v
unfolding to_le_bytes from_le_bytes
from-to_le_bytes zero v h = omega arith
from-to_le_bytes (suc n) v h =
    omega (arith, from-to_le_bytes n (v / 256) (omega (arith, pow-suc 256 n)))

-- The integer read from a byte string is written back as that byte string.
pub to-from_le_bytes : (bs : Bytes) → IsBytes bs → to_le_bytes (length bs) (from_le_bytes bs) ≡ bs
unfolding to_le_bytes from_le_bytes
to-from_le_bytes [] h = refl
to-from_le_bytes (b ∷ bs) h = ground (arith, to-from_le_bytes bs h.1)

pub from_le_bytes-lt : (bs : Bytes) → IsBytes bs → from_le_bytes bs < 256 ^ length bs
unfolding from_le_bytes
from_le_bytes-lt [] h = omega arith
from_le_bytes-lt (b ∷ bs) h = omega (arith, pow-suc 256 (length bs), from_le_bytes-lt bs h.1)

-- A field of `n` bytes at the head of the input.
pub take_field : (n v : ℕ) (rest : Bytes) → take n (to_le_bytes n v ++ rest) ≡ to_le_bytes n v
take_field n v rest =
    ap (λ k. take k (to_le_bytes n v ++ rest)) (sym (length-to_le_bytes n v))
    ∙ take-append_length (to_le_bytes n v) rest

pub drop_field : (n v : ℕ) (rest : Bytes) → drop n (to_le_bytes n v ++ rest) ≡ rest
drop_field n v rest =
    ap (λ k. drop k (to_le_bytes n v ++ rest)) (sym (length-to_le_bytes n v))
    ∙ drop-append_length (to_le_bytes n v) rest

long_enough : (n v : ℕ) (rest : Bytes) → ltb (length (to_le_bytes n v ++ rest)) n ≡ false
long_enough n v rest =
    le→ltb _ n (omega (arith, length-append (to_le_bytes n v) rest, length-to_le_bytes n v))

pub decode_fixed16-to_le_bytes :
    (v : ℕ) (rest : Bytes) → IsU16 v → decode_fixed16 (to_le_bytes 2 v ++ rest) ≡ some v
unfolding decode_fixed16
decode_fixed16-to_le_bytes v rest h =
    rw (long_enough 2 v rest, take_field 2 v rest, from-to_le_bytes 2 v (omega arith))

pub decode_fixed32-to_le_bytes :
    (v : ℕ) (rest : Bytes) → IsU32 v → decode_fixed32 (to_le_bytes 4 v ++ rest) ≡ some v
unfolding decode_fixed32
decode_fixed32-to_le_bytes v rest h =
    rw (long_enough 4 v rest, take_field 4 v rest, from-to_le_bytes 4 v (omega arith))

-- A field that stands alone.
pub decode_fixed32_field : (v : ℕ) → IsU32 v → decode_fixed32 (to_le_bytes 4 v) ≡ some v
decode_fixed32_field v h =
    ap decode_fixed32 (sym (append-nil (to_le_bytes 4 v))) ∙ decode_fixed32-to_le_bytes v [] h

pub decode_fixed64-to_le_bytes :
    (v : ℕ) (rest : Bytes) → IsU64 v → decode_fixed64 (to_le_bytes 8 v ++ rest) ≡ some v
unfolding decode_fixed64
decode_fixed64-to_le_bytes v rest h =
    rw (long_enough 8 v rest, take_field 8 v rest, from-to_le_bytes 8 v (omega arith))

-- A fixed-width integer is read back from what the writer appends, and what follows is left.
pub get_fixed16-put_fixed16 :
    (v : ℕ) (rest : Bytes) → IsU16 v → get_fixed16 (put_fixed16 [] v ++ rest) ≡ some (v, rest)
unfolding get_fixed16 put_fixed16
get_fixed16-put_fixed16 v rest h =
    rw (long_enough 2 v rest, decode_fixed16-to_le_bytes v rest h, drop_field 2 v rest)

pub get_fixed32-put_fixed32 :
    (v : ℕ) (rest : Bytes) → IsU32 v → get_fixed32 (put_fixed32 [] v ++ rest) ≡ some (v, rest)
unfolding get_fixed32 put_fixed32
get_fixed32-put_fixed32 v rest h =
    rw (long_enough 4 v rest, decode_fixed32-to_le_bytes v rest h, drop_field 4 v rest)

pub get_fixed64-put_fixed64 :
    (v : ℕ) (rest : Bytes) → IsU64 v → get_fixed64 (put_fixed64 [] v ++ rest) ≡ some (v, rest)
unfolding get_fixed64 put_fixed64
get_fixed64-put_fixed64 v rest h =
    rw (long_enough 8 v rest, decode_fixed64-to_le_bytes v rest h, drop_field 8 v rest)

pub put_fixed16-append : (dst : Bytes) (v : ℕ) → put_fixed16 dst v ≡ dst ++ put_fixed16 [] v
unfolding put_fixed16
put_fixed16-append dst v = refl

pub put_fixed32-append : (dst : Bytes) (v : ℕ) → put_fixed32 dst v ≡ dst ++ put_fixed32 [] v
unfolding put_fixed32
put_fixed32-append dst v = refl

pub put_fixed64-append : (dst : Bytes) (v : ℕ) → put_fixed64 dst v ≡ dst ++ put_fixed64 [] v
unfolding put_fixed64
put_fixed64-append dst v = refl
