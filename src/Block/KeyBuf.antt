-- ===== src/Block/KeyBuf.antt =====
-- src/block/block.rs: `KeyBuf`, the key of an iterator, which is kept inline while it is short.
use pulsearc_db.Base.{
  ℕ, zero, suc, ◌+◌, ◌≤◌, true, Bytes, [], ◌∷◌, ◌++◌, ◌≡◌, refl, sym, ◌∙◌, ap, arith, inl, inr,
  Bool-cases, length, take, drop, replicate, ltb, leb, if◌then◌else◌, length-append, length-take,
  length-drop, append_assoc, ltb→lt, ltb→le,
}
use pulsearc_db.Base.Slices.{take_front, take_all}

abbrev pub key_inline_cap : ℕ
key_inline_cap = 48

-- The array and the length of the key in it, or the key.
pub data KeyBuf : Type 0 where
  inline : Bytes → ℕ → KeyBuf
  heap : Bytes → KeyBuf

unfoldable pub new_key : KeyBuf
new_key = inline (replicate key_inline_cap 0) 0

unfoldable pub deref : KeyBuf → Bytes
deref (inline array len) = take len array
deref (heap v) = v

unfoldable pub clear_key : KeyBuf → KeyBuf
clear_key (inline array len) = inline array 0
clear_key (heap v) = heap []

unfoldable pub truncate_key : ℕ → KeyBuf → KeyBuf
truncate_key n (inline array len) = if ltb n len then inline array n else inline array len
truncate_key n (heap v) = heap (take n v)

-- `data[len..new_len].copy_from_slice(bytes)`
unfoldable pub copy_at : Bytes → ℕ → Bytes → Bytes
copy_at array len bytes = take len array ++ (bytes ++ drop (len + length bytes) array)

unfoldable pub extend_key : Bytes → KeyBuf → KeyBuf
extend_key bytes (inline array len) =
    if leb (len + length bytes) key_inline_cap
    then inline (copy_at array len bytes) (len + length bytes)
    else heap (take len array ++ bytes)
extend_key bytes (heap v) = heap (v ++ bytes)

-- The array has its size, and the key lies in it.
abbrev pub IsKeyBuf : KeyBuf → Type 0
IsKeyBuf (inline array len) = (length array ≡ key_inline_cap) × (len ≤ key_inline_cap)
IsKeyBuf (heap v) = Unit {0}

leb→le : (a b : ℕ) → leb a b ≡ true → a ≤ b
leb→le a b h = ground arith

take-take : (n m : ℕ) (xs : Bytes) → n ≤ m → take n (take m xs) ≡ take n xs
take-take zero m xs h = refl
take-take (suc n) zero xs h = absurd (omega arith)
take-take (suc n) (suc m) [] h = refl
take-take (suc n) (suc m) (x ∷ xs) h = ap (λ t. x ∷ t) (take-take n m xs (omega arith))

-- The buffer stands for a byte string: whichever form it has, clearing it empties the string,
-- truncating it takes the front, and extending it appends; and it keeps its form.
pub key_buf_lem :
    (k : KeyBuf) (n : ℕ) (bytes : Bytes)
    → IsKeyBuf k
    → ((deref (clear_key k) ≡ []) × IsKeyBuf (clear_key k))
      × ((deref (truncate_key n k) ≡ take n (deref k)) × IsKeyBuf (truncate_key n k))
      × ((deref (extend_key bytes k) ≡ deref k ++ bytes) × IsKeyBuf (extend_key bytes k))
unfolding deref clear_key truncate_key extend_key
key_buf_lem (heap v) n bytes h = ((refl, tt), (refl, tt), (refl, tt))
key_buf_lem (inline array len) n bytes (full, inside) = ((refl, (full, omega arith)), cut, longer)
  where
    cut :
        (deref (truncate_key n (inline array len)) ≡ take n (take len array))
        × IsKeyBuf (truncate_key n (inline array len))
    cut = elim (Bool-cases (ltb n len)) [
      | inl less ↦ rw less (
        sym (take-take n len array (omega (arith, ltb→lt n len less))),
        (full, omega (arith, ltb→lt n len less)),
      )
      | inr more ↦ rw more (
        sym (take_all n (take len array) (omega (arith, length-take len array, ltb→le n len more))),
        (full, inside),
      )
    ]

    longer :
        (deref (extend_key bytes (inline array len)) ≡ take len array ++ bytes)
        × IsKeyBuf (extend_key bytes (inline array len))
    longer = elim (Bool-cases (leb (len + length bytes) key_inline_cap)) [
      | inr spills ↦ rw spills (refl, tt)
      | inl fits ↦
          let small = leb→le (len + length bytes) key_inline_cap fits in
          rw fits (
            unfold copy_at in
                ap (take (len + length bytes))
                  (sym (append_assoc (take len array) bytes (drop (len + length bytes) array)))
                ∙ take_front (len + length bytes) (take len array ++ bytes)
                    (drop (len + length bytes) array)
                    (omega (arith, length-append (take len array) bytes, length-take len array)),
            (
              unfold copy_at in
                  omega (
                    arith,
                    length-append (take len array) (bytes ++ drop (len + length bytes) array),
                    length-append bytes (drop (len + length bytes) array),
                    length-take len array,
                    length-drop (len + length bytes) array,
                  ),
              small,
            ),
          )
    ]
