-- ===== src/Coding/VarintBounds.antt =====
-- Variable-width integers: how many bytes the writers make, and what the readers do on any input.
use native.Mathlib.Nat.{mod-lt, one-le-pow}
use pulsearc_db.Base.{
  ℕ, zero, suc, ◌+◌, ◌*◌, ◌/◌, ◌%◌, ◌^◌, ◌≤◌, ◌<◌, bit_and, bit_or, Bytes, some, [], ◌∷◌, ◌++◌,
  length, drop, ltb, ◌≡◌, ap, arith, IsU32, IsU64, IsBytes, length-append, append_assoc, Bool-cases,
  inl, inr, ltb→lt, ltb→le, ◌∙◌,
}
use pulsearc_db.Base.Bits.{bit_or-lt}
use pulsearc_db.Coding.{
  group_byte, put_varint_loop, put_varint64, get_varint_loop, get_varint32, get_varint64,
  varint_length_loop, varint_length, write_at, encode_varint_loop, encode_varint64,
}
use pulsearc_db.Coding.Varint.{group_byte_lem, put_varint_loop-append, put_last, put_inner}
use pulsearc_db.Base.Slices.{set-append_length}

varint_length_loop-put :
    (f v n : ℕ) → varint_length_loop f v (n + 1) ≡ n + length (put_varint_loop f [] v)
unfolding varint_length_loop put_varint_loop
varint_length_loop-put zero v n = omega arith
varint_length_loop-put (suc f) v n = ground (
  arith,
  varint_length_loop-put f (v / 128) (n + 1),
  put_varint_loop-append f (v / 128) (group_byte v ∷ []),
)

varint_length_loop_pos : (f v n : ℕ) → n < varint_length_loop f v (n + 1)
unfolding varint_length_loop
varint_length_loop_pos zero v n = omega arith
varint_length_loop_pos (suc f) v n = ground (arith, varint_length_loop_pos f (v / 128) (n + 1))

-- `varint_length` is the number of bytes that `put_varint64` writes.
pub varint_length_lem : (v : ℕ) → varint_length v ≡ length (put_varint64 [] v)
unfolding varint_length put_varint64
varint_length_lem v = omega (arith, varint_length_loop-put v v 0)

put_varint_loop-length :
    (r f v : ℕ) → v ≤ f → v < 128 ^ suc r → length (put_varint_loop f [] v) ≤ suc r
unfolding put_varint_loop
put_varint_loop-length r zero v hf hv = omega arith
put_varint_loop-length zero (suc f) v hf hv = ground arith
put_varint_loop-length (suc r) (suc f) v hf hv = ground (
  arith,
  put_varint_loop-append f (v / 128) (group_byte v ∷ []),
  put_varint_loop-length r f (v / 128) (omega arith),
)

put_varint_loop-IsBytes : (f v : ℕ) → v ≤ f → IsBytes (put_varint_loop f [] v)
unfolding put_varint_loop
put_varint_loop-IsBytes zero v h = omega arith
put_varint_loop-IsBytes (suc f) v h = ground (
  arith,
  put_varint_loop-append f (v / 128) (group_byte v ∷ []),
  put_varint_loop-IsBytes f (v / 128) (omega arith),
  group_byte_lem v,
)

-- What `put_varint64` writes for a u64 is at most ten bytes.
pub put_varint64-shape :
    (v : ℕ) → IsU64 v → IsBytes (put_varint64 [] v) × (length (put_varint64 [] v) ≤ 10)
unfolding put_varint64
put_varint64-shape v h = (
  put_varint_loop-IsBytes v v (omega arith),
  put_varint_loop-length 9 v v (omega arith) (omega arith),
)

get_varint_loop_takes :
    (w r shift acc v : ℕ) (input rest : Bytes)
    → acc < 2 ^ w
    → get_varint_loop w r shift acc input ≡ some (v, rest)
    → (v < 2 ^ w) × (length rest < length input) × (length input ≤ length rest + r)
unfolding get_varint_loop
get_varint_loop_takes w zero shift acc v input rest ha e = absurd (cc)
get_varint_loop_takes w (suc r) shift acc v [] rest ha e = absurd (cc)
get_varint_loop_takes w (suc r) shift acc v (b ∷ bs) rest ha e =
    let group = bit_and b 0x7f * 2 ^ shift % 2 ^ w in
    let last = b * 2 ^ shift % 2 ^ w in
    ground (
      arith,
      bit_or-lt w acc last ha (mod-lt _ (one-le-pow w 2 (omega arith))),
      bit_or-lt w acc group ha (mod-lt _ (one-le-pow w 2 (omega arith))),
      get_varint_loop_takes w r (shift + 7) (bit_or acc group) v bs rest,
    )

-- Whatever the input, a value that `get_varint64` returns is a u64, read from one to ten bytes.
pub get_varint64_takes :
    (v : ℕ) (input rest : Bytes)
    → get_varint64 input ≡ some (v, rest)
    → IsU64 v × (length rest < length input) × (length input ≤ length rest + 10)
unfolding get_varint64
get_varint64_takes v input rest e = get_varint_loop_takes 64 10 0 0 v input rest (omega arith) e

-- Whatever the input, a value that `get_varint32` returns is a u32, read from one to five bytes.
pub get_varint32_takes :
    (v : ℕ) (input rest : Bytes)
    → get_varint32 input ≡ some (v, rest)
    → IsU32 v × (length rest < length input) × (length input ≤ length rest + 5)
unfolding get_varint32
get_varint32_takes v input rest e = get_varint_loop_takes 32 5 0 0 v input rest (omega arith) e

-- A write inside the slice, behind the bytes that are done.
write_at-append :
    (done slot : Bytes) (old b : ℕ)
    → write_at (done ++ old ∷ slot) (length done) b ≡ some (done ++ b ∷ slot)
unfolding write_at
write_at-append done slot old b =
    ground (arith, length-append done (old ∷ slot), set-append_length done slot old b)

-- Where the loops have one byte left to write, they write it at the offset.
encode_varint_loop_last :
    (f v : ℕ) (done slot : Bytes) (old : ℕ)
    → v < 128
    → encode_varint_loop f (done ++ old ∷ slot) (length done) v
      ≡ some (done ++ v ∷ slot, length done + 1)
unfolding encode_varint_loop
encode_varint_loop_last zero v done slot old h =
    ground (arith, write_at-append done slot old (v % 256))
encode_varint_loop_last (suc f) v done slot old h =
    ground (arith, write_at-append done slot old (v % 256))

encode_varint_loop_more :
    (f v : ℕ) (done slot : Bytes) (old : ℕ)
    → 128 ≤ v
    → encode_varint_loop (suc f) (done ++ old ∷ slot) (length done) v
      ≡ encode_varint_loop f (done ++ (v % 128 + 128) ∷ slot) (length done + 1) (v / 128)
unfolding encode_varint_loop
encode_varint_loop_more f v done slot old h =
    ground (arith, group_byte_lem v, write_at-append done slot old (group_byte v))

encode_varint_loop-put :
    (f v : ℕ) (done slot : Bytes)
    → v ≤ f
    → length (put_varint_loop f [] v) ≤ length slot
    → encode_varint_loop f (done ++ slot) (length done) v
      ≡ some (
        done ++ (put_varint_loop f [] v ++ drop (length (put_varint_loop f [] v)) slot),
        length done + length (put_varint_loop f [] v),
      )
encode_varint_loop-put f v done [] hf fits =
    absurd (omega (arith, varint_length_loop-put f v 0, varint_length_loop_pos f v 0))
encode_varint_loop-put zero v done (old ∷ slot) hf fits =
    rw (put_last zero v (omega arith)) (encode_varint_loop_last zero v done slot old (omega arith))
encode_varint_loop-put (suc f) v done (old ∷ slot) hf fits = elim (Bool-cases (ltb v 128)) [
  | inl small ↦
      let h = ltb→lt v 128 small in
      rw (put_last (suc f) v h) (encode_varint_loop_last (suc f) v done slot old h)
  | inr big ↦
      let h = ltb→le v 128 big in
      let g = v % 128 + 128 in
      let more = put_varint_loop f [] (v / 128) in
      let ih =
        encode_varint_loop-put f (v / 128) (done ++ g ∷ []) slot (omega arith)
          (omega (arith, ap length (put_inner f v h))) in
      ground (
        arith,
        put_inner f v h,
        encode_varint_loop_more f v done slot old h,
        length-append done (g ∷ []),
        append_assoc done (g ∷ []) slot,
        append_assoc done (g ∷ []) (more ++ drop (length more) slot),
        ih,
      )
]

-- Into a slice with room, `encode_varint64` writes in place the bytes that `put_varint64` appends,
-- returns how many they are, and leaves the rest of the slice.
pub encode_varint64-put_varint64 :
    (slot : Bytes) (v : ℕ)
    → varint_length v ≤ length slot
    → encode_varint64 slot v
      ≡ some (put_varint64 [] v ++ drop (varint_length v) slot, varint_length v)
encode_varint64-put_varint64 slot v fits = rw varint_length_lem (
    unfold encode_varint64 put_varint64 in
    (encode_varint_loop-put v v [] slot (omega arith) (rw varint_length_lem at fits)
      ∙ ap
          (λ (n : ℕ).
            some (put_varint_loop v [] v ++ drop (length (put_varint_loop v [] v)) slot, n))
          (omega arith)))
