-- ===== src/Coding/Examples.antt =====
-- src/coding/coding.rs on concrete inputs, the ones of its tests among them.
use pulsearc_db.Base.{
  [], ◌∷◌, ◌++◌, length, drop, some, none, ◌≡◌, refl, arith, IsU64, IsU32, IsBytes, ◌<◌, ◌≤◌, ◌+◌,
}
use pulsearc_db.Coding.{
  put_varint64, get_varint64, get_varint32, varint_length, encode_varint64,
  put_length_prefixed_slice, get_length_prefixed_slice, put_fixed64, get_fixed64,
}
use pulsearc_db.Coding.Varint.{get_varint64-put_varint64}
use pulsearc_db.Coding.VarintBounds.{
  get_varint64_takes, get_varint32_takes, put_varint64-shape, encode_varint64-put_varint64,
}
use pulsearc_db.Coding.Prefixed.{get_length_prefixed_slice-put}
use pulsearc_db.Coding.Fixed.{get_fixed64-put_fixed64}

put_varint64_300 : put_varint64 [] 300 ≡ 0xac ∷ 0x02 ∷ []
unfolding put_varint64
put_varint64_300 = refl

-- An input that ends inside a number.
get_varint32_cut : get_varint32 (0x80 ∷ []) ≡ none
unfolding get_varint32
get_varint32_cut = refl

get_varint64_300 : get_varint64 (0xac ∷ 0x02 ∷ 7 ∷ []) ≡ some (300, 7 ∷ [])
unfolding get_varint64
get_varint64_300 = refl

get_varint32_300 : get_varint32 (0xac ∷ 0x02 ∷ 7 ∷ []) ≡ some (300, 7 ∷ [])
unfolding get_varint32
get_varint32_300 = refl

get_varint64-put_varint64_example :
    get_varint64 (put_varint64 [] 300 ++ 7 ∷ []) ≡ some (300, 7 ∷ [])
get_varint64-put_varint64_example = get_varint64-put_varint64 300 (7 ∷ []) (omega arith)

get_varint64_takes_example : IsU64 300 × (1 < 3) × (3 ≤ 1 + 10)
get_varint64_takes_example = get_varint64_takes 300 (0xac ∷ 0x02 ∷ 7 ∷ []) (7 ∷ []) get_varint64_300

get_varint32_takes_example : IsU32 300 × (1 < 3) × (3 ≤ 1 + 5)
get_varint32_takes_example = get_varint32_takes 300 (0xac ∷ 0x02 ∷ 7 ∷ []) (7 ∷ []) get_varint32_300

put_varint64-shape_example : IsBytes (put_varint64 [] 300) × (length (put_varint64 [] 300) ≤ 10)
put_varint64-shape_example = put_varint64-shape 300 (omega arith)

room : varint_length 300 ≤ 4
unfolding varint_length
room = omega arith

encode_varint64-put_varint64_example :
    encode_varint64 (1 ∷ 2 ∷ 3 ∷ 4 ∷ []) 300
    ≡ some (put_varint64 [] 300 ++ drop (varint_length 300) (1 ∷ 2 ∷ 3 ∷ 4 ∷ []), varint_length 300)
encode_varint64-put_varint64_example = encode_varint64-put_varint64 (1 ∷ 2 ∷ 3 ∷ 4 ∷ []) 300 room

get_length_prefixed_slice-put_example :
    get_length_prefixed_slice (put_length_prefixed_slice [] (104 ∷ 105 ∷ []) ++ 9 ∷ [])
    ≡ some (104 ∷ 105 ∷ [], 9 ∷ [])
get_length_prefixed_slice-put_example =
    get_length_prefixed_slice-put (104 ∷ 105 ∷ []) (9 ∷ []) (omega arith)

two_bytes : get_length_prefixed_slice (2 ∷ 104 ∷ 105 ∷ 9 ∷ []) ≡ some (104 ∷ 105 ∷ [], 9 ∷ [])
unfolding get_length_prefixed_slice get_varint32
two_bytes = refl

get_fixed64-put_fixed64_example : get_fixed64 (put_fixed64 [] 258 ++ 7 ∷ []) ≡ some (258, 7 ∷ [])
get_fixed64-put_fixed64_example = get_fixed64-put_fixed64 258 (7 ∷ []) (omega arith)
