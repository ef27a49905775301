-- ===== src/Coding/Varint.antt =====
-- Variable-width integers: what the writers append, and that the readers take it back.
use native.Mathlib.Nat.{pow-suc, mod-eq_of_lt, div-add-mod}
use native.Mathlib.Numerals.{towards_suc}
use pulsearc_db.Base.{
  ℕ, zero, suc, ◌+◌, ◌*◌, ◌/◌, ◌%◌, ◌^◌, ◌≤◌, ◌<◌, Bytes, some, [], ◌∷◌, ◌++◌, ltb, ◌≡◌, refl, ap,
  ◌∙◌, arith, append_assoc, IsU32, IsU64, Bool-cases, ltb→lt, ltb→le, inl, inr,
}
use pulsearc_db.Base.Bits.{low-bit_or-shifted, bit_and-mask}
use pulsearc_db.Base.Octets.{seven_bits, eighth_bit, with_eighth_bit}
use pulsearc_db.Coding.{
  group_byte, put_varint_loop, put_varint64, put_varint32, get_varint_loop, get_varint32,
  get_varint64,
}

-- The low seven bits with the top bit set.
pub group_byte_lem : (v : ℕ) → group_byte v ≡ v % 128 + 128
group_byte_lem v = rw (bit_and-mask 7 0x7f v refl) (with_eighth_bit _ (omega arith) ∙ omega arith)

-- The loop only appends.
pub put_varint_loop-append :
    (f v : ℕ) (dst : Bytes) → put_varint_loop f dst v ≡ dst ++ put_varint_loop f [] v
unfolding put_varint_loop
put_varint_loop-append zero v dst = refl
put_varint_loop-append (suc f) v dst = ground (
  arith,
  put_varint_loop-append f (v / 128) (dst ++ group_byte v ∷ []),
  put_varint_loop-append f (v / 128) (group_byte v ∷ []),
  append_assoc dst (group_byte v ∷ []) (put_varint_loop f [] (v / 128)),
)

shift_by_seven : (s : ℕ) → 2 ^ (s + 7) ≡ 128 * 2 ^ s
shift_by_seven s = simp towards_suc (omega arith)

-- The last byte of a number.
get_last :
    (w r shift acc b : ℕ) (rest : Bytes)
    → b < 128
    → acc < 2 ^ shift
    → b * 2 ^ shift < 2 ^ w
    → get_varint_loop w (suc r) shift acc (b ∷ rest) ≡ some (acc + b * 2 ^ shift, rest)
unfolding get_varint_loop
get_last w r shift acc b rest hb ha fits =
    ground (arith, eighth_bit b, mod-eq_of_lt fits, low-bit_or-shifted shift b acc ha)

-- A byte with the top bit set over the group `g`.
get_inner :
    (w r shift acc g : ℕ) (rest : Bytes)
    → g < 128
    → acc < 2 ^ shift
    → g * 2 ^ shift < 2 ^ w
    → get_varint_loop w (suc r) shift acc ((g + 128) ∷ rest)
      ≡ get_varint_loop w r (shift + 7) (acc + g * 2 ^ shift) rest
unfolding get_varint_loop
get_inner w r shift acc g rest hg ha fits = ground (
  arith,
  seven_bits (g + 128),
  eighth_bit (g + 128),
  mod-eq_of_lt fits,
  low-bit_or-shifted shift g acc ha,
)

-- The number is its low seven bits and the rest, both shifted by `s`.
split_number : (v s : ℕ) → v * 2 ^ s ≡ v % 128 * 2 ^ s + v / 128 * 2 ^ (s + 7)
split_number v s = omega (
  arith,
  ap (λ (t : ℕ). t * 2 ^ s) (div-add-mod v 128),
  ap (λ (t : ℕ). v / 128 * t) (shift_by_seven s),
)

-- What has been read stays below the next shift.
acc_grows : (acc g s : ℕ) → acc < 2 ^ s → g < 128 → acc + g * 2 ^ s < 2 ^ (s + 7)
acc_grows acc g s ha hg = grind (arith, shift_by_seven s)

-- One round of the writer, seen from the bytes that it makes.
pub put_last : (f v : ℕ) → v < 128 → put_varint_loop f [] v ≡ v ∷ []
unfolding put_varint_loop
put_last zero v h = ground (arith)
put_last (suc f) v h = ground (arith)

pub put_inner :
    (f v : ℕ)
    → 128 ≤ v
    → put_varint_loop (suc f) [] v ≡ (v % 128 + 128) ∷ put_varint_loop f [] (v / 128)
unfolding put_varint_loop
put_inner f v h =
    ground (arith, group_byte_lem v, put_varint_loop-append f (v / 128) (group_byte v ∷ []))

-- From a state that has read `acc`, the reader adds the written `v` at its shift and stops there.
get-put_loop :
    (r w f shift acc v : ℕ) (rest : Bytes)
    → v ≤ f
    → v < 128 ^ suc r
    → acc < 2 ^ shift
    → acc + v * 2 ^ shift < 2 ^ w
    → get_varint_loop w (suc r) shift acc (put_varint_loop f [] v ++ rest)
      ≡ some (acc + v * 2 ^ shift, rest)
get-put_loop zero w f shift acc v rest hf hv ha fits =
    rw (put_last f v (omega arith)) (get_last w 0 shift acc v rest (omega arith) ha (omega arith))
get-put_loop (suc r) w zero shift acc v rest hf hv ha fits =
    rw (put_last zero v (omega arith))
      (get_last w (suc r) shift acc v rest (omega arith) ha (omega arith))
get-put_loop (suc r) w (suc f) shift acc v rest hf hv ha fits = elim (Bool-cases (ltb v 128)) [
  | inl small ↦
      rw (put_last (suc f) v (ltb→lt v 128 small))
        (get_last w (suc r) shift acc v rest (ltb→lt v 128 small) ha (omega arith))
  | inr big ↦
      let acc' = acc + v % 128 * 2 ^ shift in
      let parts = split_number v shift in
      let ih =
        get-put_loop r w f (shift + 7) acc' (v / 128) rest (omega (arith, ltb→le v 128 big))
          (omega (arith, pow-suc 128 (suc r))) (acc_grows acc (v % 128) shift ha (omega arith))
          (omega arith) in
      rw
        (
          put_inner f v (ltb→le v 128 big),
          get_inner w (suc r) shift acc (v % 128) (put_varint_loop f [] (v / 128) ++ rest)
              (omega arith) ha (omega arith),
        )
        (ih ∙ ap (λ (t : ℕ). some (t, rest)) (omega arith))
]

-- Both writers append to the buffer and leave what it holds.
pub put_varint64-append : (dst : Bytes) (v : ℕ) → put_varint64 dst v ≡ dst ++ put_varint64 [] v
unfolding put_varint64
put_varint64-append dst v = put_varint_loop-append v v dst

pub put_varint32-append : (dst : Bytes) (v : ℕ) → put_varint32 dst v ≡ dst ++ put_varint32 [] v
unfolding put_varint32
put_varint32-append dst v = put_varint64-append dst v

-- A u64 is read back from the bytes that `put_varint64` writes for it, and what follows is left.
pub get_varint64-put_varint64 :
    (v : ℕ) (rest : Bytes) → IsU64 v → get_varint64 (put_varint64 [] v ++ rest) ≡ some (v, rest)
unfolding put_varint64 get_varint64
get_varint64-put_varint64 v rest h =
    get-put_loop 9 64 v 0 0 v rest (omega arith) (omega arith) (omega arith) (omega arith)
    ∙ ap (λ (t : ℕ). some (t, rest)) (omega arith)

-- A u32 is read back from the bytes that `put_varint32` writes for it, and what follows is left.
pub get_varint32-put_varint32 :
    (v : ℕ) (rest : Bytes) → IsU32 v → get_varint32 (put_varint32 [] v ++ rest) ≡ some (v, rest)
unfolding put_varint32 get_varint32 put_varint64
get_varint32-put_varint32 v rest h =
    get-put_loop 4 32 v 0 0 v rest (omega arith) (omega arith) (omega arith) (omega arith)
    ∙ ap (λ (t : ℕ). some (t, rest)) (omega arith)
