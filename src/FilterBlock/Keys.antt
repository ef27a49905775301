-- ===== src/FilterBlock/Keys.antt =====
-- The builder's buffer of keys as the list of the keys that were added.
use pulsearc_db.Base.{
  ℕ, zero, suc, ◌+◌, ◌-◌, ◌≤◌, Bytes, [], ◌∷◌, ◌++◌, List, All, length, take, drop, ◌≡◌, refl, ap,
  arith, append_assoc, length-append, All-append,
}
use pulsearc_db.Base.Slices.{drop-append_length, take_all}
use pulsearc_db.FilterBlock.{FilterBlockBuilder, new_builder, add_key, key_slices}

-- The keys that the next filter is made from.
unfoldable pub pending : FilterBlockBuilder → List Bytes
pending b = key_slices b.keys (b.start ++ length b.keys ∷ [])

-- The offsets lie in the buffer.
unfoldable pub IsBuilder : FilterBlockBuilder → Type 0
IsBuilder b = All (λ offset. offset ≤ length b.keys) b.start

pub new_builder-IsBuilder : IsBuilder new_builder
unfolding IsBuilder
new_builder-IsBuilder = tt

All-mono {ℓ} :
    {A : Type ℓ} (f : A → ℕ) (m n : ℕ) (xs : List A)
    → m ≤ n
    → All (λ x. f x ≤ m) xs
    → All (λ x. f x ≤ n) xs
All-mono f m n [] h k = tt
All-mono f m n (x ∷ xs) h (k, ks) = (omega arith, All-mono f m n xs h ks)

-- A slice that ends before the end of the buffer is the same in a longer buffer.
slice-append :
    (m n : ℕ) (buffer more : Bytes)
    → n + m ≤ length buffer
    → take n (drop m (buffer ++ more)) ≡ take n (drop m buffer)
slice-append zero zero buffer more h = refl
slice-append zero (suc n) [] more h = absurd (omega arith)
slice-append zero (suc n) (x ∷ buffer) more h =
    ap (λ t. x ∷ t) (slice-append zero n buffer more (omega arith))
slice-append (suc m) n [] more h = absurd (omega arith)
slice-append (suc m) n (x ∷ buffer) more h = slice-append m n buffer more (omega arith)

key_slices-append :
    (offsets : List ℕ) (buffer more : Bytes)
    → All (λ offset. offset ≤ length buffer) offsets
    → key_slices (buffer ++ more) offsets ≡ key_slices buffer offsets
unfolding key_slices
key_slices-append [] buffer more h = refl
key_slices-append (from ∷ []) buffer more h = refl
key_slices-append (from ∷ to ∷ offsets) buffer more (h, (k, ks)) =
    rw (slice-append from (to - from) buffer more (omega arith)) (
      ap (λ t. take (to - from) (drop from buffer) ∷ t)
        (key_slices-append (to ∷ offsets) buffer more (k, ks)))

-- One more offset is one more slice.
key_slices_last :
    (offsets : List ℕ) (buffer : Bytes) (from to : ℕ)
    → key_slices buffer (offsets ++ from ∷ to ∷ [])
      ≡ key_slices buffer (offsets ++ from ∷ []) ++ take (to - from) (drop from buffer) ∷ []
unfolding key_slices
key_slices_last [] buffer from to = refl
key_slices_last (a ∷ []) buffer from to = refl
key_slices_last (a ∷ b ∷ offsets) buffer from to =
    ap (λ t. take (b - a) (drop a buffer) ∷ t) (key_slices_last (b ∷ offsets) buffer from to)

pub add_key-IsBuilder :
    (b : FilterBlockBuilder) (key : Bytes) → IsBuilder b → IsBuilder (add_key b key)
unfolding IsBuilder add_key
add_key-IsBuilder b key h =
    let longer = length-append b.keys key in
    All-append (λ offset. offset ≤ length (b.keys ++ key)) b.start (length b.keys ∷ [])
      (
        All-mono (λ n. n) (length b.keys) (length (b.keys ++ key)) b.start (omega arith) h,
        (omega arith, tt),
      )

-- `add_key` on a builder whose offsets lie in its buffer appends the key to the list that the next
-- filter is made from.
pub pending-add_key :
    (b : FilterBlockBuilder) (key : Bytes)
    → IsBuilder b
    → pending (add_key b key) ≡ pending b ++ key ∷ []
unfolding pending add_key IsBuilder
pending-add_key b key h =
    let buffer = b.keys ++ key in
    let old = length b.keys in
    let ends : length buffer - old ≡ length key = omega (arith, length-append b.keys key) in
    let inside : All (λ offset. offset ≤ old) (b.start ++ old ∷ []) =
      All-append (λ offset. offset ≤ old) b.start (old ∷ []) (h, (omega arith, tt)) in
    rw (
      append_assoc b.start (old ∷ []) (length buffer ∷ []),
      key_slices_last b.start buffer old (length buffer),
      key_slices-append (b.start ++ old ∷ []) b.keys key inside,
      ends,
      drop-append_length b.keys key,
      take_all (length key) key (omega arith),
    )
