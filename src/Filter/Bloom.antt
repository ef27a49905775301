-- ===== src/Filter/Bloom.antt =====
-- The filter that is built from a list of keys has no false negative.
use pulsearc_db.Base.{
  ℕ, ◌*◌, ◌-◌, ◌%◌, ◌≤◌, ◌<◌, Bytes, [], ◌∷◌, ◌++◌, List, map, length, some, All, replicate, true,
  ◌≡◌, refl, arith, append_assoc, length-append, length-replicate, le→ltb, ◌^◌, ◌+◌, lt→ltb, ◌/◌,
  if◌then◌else◌, ltb, Bool-cases, inl, inr, ltb→le, ap, suc,
}
use pulsearc_db.Base.Positions.{get_elem?-last}
use pulsearc_db.Base.Slices.{take-append_length}
use pulsearc_db.Hash.{hash}
use pulsearc_db.Filter.{
  BloomFilterPolicy, new, probe_count, hash_seed, rotate_left_15, array_bytes, add_keys,
  create_filter, probes_match, key_may_match, user_key_of, create_internal_filter,
  internal_key_may_match, grow,
}
use pulsearc_db.Filter.Probes.{Keeps, Keeps-refl, Keeps-trans, probes_match-Keeps, add_probes_lem}

-- The probes of a key are found in an array.
unfoldable pub Finds : ℕ → ℕ → Bytes → Bytes → Type 0
Finds k bits array key =
    probes_match k bits (rotate_left_15 (hash key hash_seed)) (hash key hash_seed) array ≡ some true

Finds-Keeps :
    (k bits : ℕ) (array array' : Bytes) (keys : List Bytes)
    → 0 < bits
    → Keeps array array'
    → All (Finds k bits array) keys
    → All (Finds k bits array') keys
unfolding Finds
Finds-Keeps k bits array array' [] full keeps h = tt
Finds-Keeps k bits array array' (key ∷ keys) full keeps (h, hs) = (
  probes_match-Keeps k bits _ _ array array' full keeps h,
  Finds-Keeps k bits array array' keys full keeps hs,
)

-- All the keys that were added are found.
add_keys_lem :
    (policy : BloomFilterPolicy) (bits : ℕ) (keys : List Bytes) (front array back : Bytes)
    → 0 < bits
    → bits ≡ length array * 8
    → (array' : Bytes) × (add_keys policy (length front) bits keys (front ++ (array ++ back))
        ≡ some (front ++ (array' ++ back)))
      × Keeps array array'
      × All (Finds policy.k bits array') keys
unfolding add_keys Finds
add_keys_lem policy bits [] front array back full e = (array, refl, Keeps-refl array, tt)
add_keys_lem policy bits (key ∷ keys) front array back full e =
    let h = hash key hash_seed in
    let (array1, added1, keeps1, found1) =
      add_probes_lem policy.k bits (rotate_left_15 h) h front array back full e in
    let (array2, added2, keeps2, found2) =
      add_keys_lem policy bits keys front array1 back full (omega (arith, keeps1.same_length)) in
    (
      array2,
      rw (added1, added2),
      Keeps-trans array array1 array2 keeps1 keeps2,
      (
        probes_match-Keeps policy.k bits (rotate_left_15 h) h array1 array2 full keeps2 found1,
        found2,
      ),
    )

last_index : (array : Bytes) (k : ℕ) → length (array ++ k ∷ []) - 1 ≡ length array
last_index array k = omega (arith, length-append array (k ∷ []))

-- Reading the filter: the array, and behind it the number of probes.
key_may_match_lem :
    (bits k : ℕ) (array key : Bytes)
    → bits ≡ length array * 8
    → bits < 2 ^ 64
    → 1 ≤ length array
    → k ≤ 30
    → Finds k bits array key
    → key_may_match key (array ++ k ∷ []) ≡ some true
unfolding key_may_match Finds
key_may_match_lem bits k array key e fits full small h =
    let in_word : length array * 8 % 2 ^ 64 ≡ bits = omega arith in
    rw
      (
        le→ltb (length (array ++ k ∷ [])) 2 (omega (arith, length-append array (k ∷ []))),
        last_index array k,
        get_elem?-last array k,
        take-append_length array (k ∷ []),
        le→ltb 30 k small,
        in_word,
      )
      h

probe_count-le : (bits_per_key : ℕ) → probe_count bits_per_key ≤ 30
unfolding probe_count
probe_count-le bits_per_key = ground arith

-- The size does not wrap, and the vector can grow.
abbrev pub HasRoom : ℕ → List Bytes → Bytes → Type 0
HasRoom bits_per_key keys dst =
    (length keys * bits_per_key + 7 < 2 ^ 64)
    × (length dst + length keys * bits_per_key / 8 + 9 < 2 ^ 63)

array_bytes_lem :
    (policy : BloomFilterPolicy) (n : ℕ)
    → n * policy.bits_per_key + 7 < 2 ^ 64
    → (8 ≤ array_bytes policy n)
      × (array_bytes policy n ≤ n * policy.bits_per_key / 8 + 8)
      × (array_bytes policy n * 8 < 2 ^ 64)
unfolding array_bytes
array_bytes_lem policy n fits = bounds (n * policy.bits_per_key) fits
  where
    bounds :
        (bits : ℕ)
        → bits + 7 < 2 ^ 64
        → (8 ≤ ((if ltb (bits % 2 ^ 64) 64 then 64 else bits % 2 ^ 64) + 7) % 2 ^ 64 / 8)
          × (((if ltb (bits % 2 ^ 64) 64 then 64 else bits % 2 ^ 64) + 7) % 2 ^ 64 / 8
              ≤ bits / 8 + 8)
          × (((if ltb (bits % 2 ^ 64) 64 then 64 else bits % 2 ^ 64) + 7) % 2 ^ 64 / 8 * 8 < 2 ^ 64)
    bounds bits h =
        let exact : bits % 2 ^ 64 ≡ bits = omega arith in
        elim (Bool-cases (ltb bits 64)) [
          | inl few ↦ rw (exact, few) (omega arith, omega arith, omega arith)
          | inr many ↦
              let more = ltb→le bits 64 many in
              rw (exact, many) (omega arith, omega arith, omega arith)
        ]

keys_found :
    (k bits : ℕ) (array : Bytes) (keys : List Bytes)
    → bits ≡ length array * 8
    → bits < 2 ^ 64
    → 1 ≤ length array
    → k ≤ 30
    → All (Finds k bits array) keys
    → All (λ key. key_may_match key (array ++ k ∷ []) ≡ some true) keys
keys_found k bits array [] e fits full small h = tt
keys_found k bits array (key ∷ keys) e fits full small (h, hs) = (
  key_may_match_lem bits k array key e fits full small h,
  keys_found k bits array keys e fits full small hs,
)

create_filter_lem :
    (policy : BloomFilterPolicy) (keys : List Bytes) (dst : Bytes)
    → policy.k ≤ 30
    → HasRoom policy.bits_per_key keys dst
    → (filter : Bytes) × (create_filter policy keys dst ≡ some (dst ++ filter))
      × All (λ key. key_may_match key filter ≡ some true) keys
unfolding create_filter grow
create_filter_lem policy keys dst small (fits, room) =
    let bytes = array_bytes policy (length keys) in
    let (long, short, in_word) = array_bytes_lem policy (length keys) fits in
    let zeros : Bytes = replicate bytes 0 in
    let size : length zeros ≡ bytes = length-replicate {A = ℕ} bytes 0 in
    let one_byte : policy.k % 256 ≡ policy.k = omega arith in
    let (array, built, keeps, found) =
      add_keys_lem policy (bytes * 8) keys dst zeros (policy.k ∷ []) (omega (arith, long))
        (omega (arith, size)) in
    (
      array ++ policy.k ∷ [],
      rw
          (
            lt→ltb (length dst + bytes + 1) (2 ^ 63) (omega (arith, short, room)),
            one_byte,
            append_assoc dst zeros (policy.k ∷ []),
            built,
          )
          refl,
      keys_found policy.k (bytes * 8) array keys (omega (arith, keeps.same_length, size)) in_word
          (omega (arith, keeps.same_length, size, long)) small found,
    )

-- If the keys' bits and 7 more fit a usize, and the buffer with the filter fits a vector, the filter is
-- built, stands behind the bytes that the buffer had, and matches every one of the keys.
pub create_filter-matches :
    (bits_per_key : ℕ) (keys : List Bytes) (dst : Bytes)
    → HasRoom bits_per_key keys dst
    → (filter : Bytes) × (create_filter (new bits_per_key) keys dst ≡ some (dst ++ filter))
      × All (λ key. key_may_match key filter ≡ some true) keys
unfolding new
create_filter-matches bits_per_key keys dst room =
    create_filter_lem (new bits_per_key) keys dst (probe_count-le bits_per_key) room

unstrip :
    (filter : Bytes) (keys : List Bytes)
    → All (λ key. key_may_match key filter ≡ some true) (map user_key_of keys)
    → All (λ key. internal_key_may_match key filter ≡ some true) keys
unfolding internal_key_may_match
unstrip filter [] h = tt
unstrip filter (key ∷ keys) (h, hs) = (h, unstrip filter keys hs)

same_count : (keys : List Bytes) → length (map user_key_of keys) ≡ length keys
same_count [] = refl
same_count (key ∷ keys) = ap suc (same_count keys)

-- If the keys' bits and 7 more fit a usize, and the buffer with the filter fits a vector, a filter is
-- built from internal keys and stands behind the buffer's bytes, and the internal policy matches every
-- one of the keys with it.
pub create_internal_filter-matches :
    (bits_per_key : ℕ) (keys : List Bytes) (dst : Bytes)
    → HasRoom bits_per_key keys dst
    → (filter : Bytes) × (create_internal_filter (new bits_per_key) keys dst ≡ some (dst ++ filter))
      × All (λ key. internal_key_may_match key filter ≡ some true) keys
unfolding create_internal_filter
create_internal_filter-matches bits_per_key keys dst (fits, room) =
    let same : length (map user_key_of keys) ≡ length keys = same_count keys in
    let (filter, built, found) =
      create_filter-matches bits_per_key (map user_key_of keys) dst (rw same fits, rw same room) in
    (filter, built, unstrip filter keys found)
