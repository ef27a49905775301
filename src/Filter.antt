-- ===== src/Filter.antt =====
-- src/filter/filter.rs: the Bloom filter, and the policy that strips the tag off internal keys.
-- `none` is a panic: an index out of range, a remainder by zero, or a vector that grows too long. A usize
-- has 64 bits, and a vector no more than isize::MAX bytes.
pub mod Probes
pub mod Bloom
mod Examples
use pulsearc_db.Base.{
  ℕ, ◌+◌, ◌*◌, ◌/◌, ◌%◌, ◌^◌, ◌-◌, bit_and, bit_or, Bytes, [], ◌∷◌, ◌++◌, length, Option, some,
  none, zero, suc, List, map, take, set, get_elem?, ltb, leb, ◌==◌, if◌then◌else◌, Bool, true,
  false, replicate,
}
use pulsearc_db.Base.Options.{◌>>=◌}
use pulsearc_db.Hash.{hash}

-- The trait; `name` has no use in the model.
pub record FilterPolicy : Type 0 where
  pub create_filter : List Bytes → Bytes → Option Bytes
  pub key_may_match : Bytes → Bytes → Option Bool

abbrev pub default_bits_per_key : ℕ
default_bits_per_key = 10

abbrev pub hash_seed : ℕ
hash_seed = 0xbc9f1d34

pub record BloomFilterPolicy : Type 0 where
  pub bits_per_key : ℕ
  pub k : ℕ

-- `((bits_per_key as f64) * 0.69) as usize`, between 1 and 30. From 44 bits per key on both sides are
-- above 30, and below that the product in f64 lies between the same integers as the exact one.
unfoldable pub probe_count : ℕ → ℕ
probe_count bits_per_key =
    let k = bits_per_key * 69 / 100 in if ltb k 1 then 1 else if ltb 30 k then 30 else k

unfoldable pub new : ℕ → BloomFilterPolicy
new bits_per_key = record { bits_per_key = bits_per_key; k = probe_count bits_per_key }

-- `h.rotate_left(15)` of a u32.
unfoldable pub rotate_left_15 : ℕ → ℕ
rotate_left_15 h = h % 2 ^ 17 * 2 ^ 15 + h / 2 ^ 17

-- `array[i] |= byte`
unfoldable pub or_at : Bytes → ℕ → ℕ → Option Bytes
or_at array i byte = get_elem? array i >>= λ old. some (set array i (bit_or old byte))

-- The length of the bit array in bytes, with a floor of 64 bits; the product and the sum wrap.
unfoldable pub array_bytes : BloomFilterPolicy → ℕ → ℕ
array_bytes policy n =
    let bits = n * policy.bits_per_key % 2 ^ 64 in
    ((if ltb bits 64 then 64 else bits) + 7) % 2 ^ 64 / 8

-- `(h as usize) % bits`, which panics at zero.
unfoldable pub remainder : ℕ → ℕ → Option ℕ
remainder h bits = if bits == 0 then none else some (h % bits)

-- The probes of one key, for the rounds left.
unfoldable pub add_probes : ℕ → ℕ → ℕ → ℕ → ℕ → Bytes → Option Bytes
add_probes zero init_size bits delta h dst = some dst
add_probes (suc rounds) init_size bits delta h dst = remainder h bits >>= λ bit_pos.
    or_at dst (init_size + bit_pos / 8) (2 ^ (bit_pos % 8)) >>= λ dst'.
    add_probes rounds init_size bits delta ((h + delta) % 2 ^ 32) dst'

unfoldable pub add_keys : BloomFilterPolicy → ℕ → ℕ → List Bytes → Bytes → Option Bytes
add_keys policy init_size bits [] dst = some dst
add_keys policy init_size bits (key ∷ keys) dst =
    let h = hash key hash_seed in
    add_probes policy.k init_size bits (rotate_left_15 h) h dst >>= λ dst'.
    add_keys policy init_size bits keys dst'

-- `dst.resize` and `dst.push`, together one byte more than the array.
unfoldable pub grow : Bytes → ℕ → ℕ → Option Bytes
grow dst bytes last =
    if ltb (length dst + bytes + 1) (2 ^ 63)
    then some ((dst ++ replicate bytes 0) ++ last ∷ [])
    else none

unfoldable pub create_filter : BloomFilterPolicy → List Bytes → Bytes → Option Bytes
create_filter policy keys dst =
    let bytes = array_bytes policy (length keys) in
    grow dst bytes (policy.k % 256) >>= λ dst'. add_keys policy (length dst) (bytes * 8) keys dst'

unfoldable pub probes_match : ℕ → ℕ → ℕ → ℕ → Bytes → Option Bool
probes_match zero bits delta h array = some true
probes_match (suc rounds) bits delta h array =
    let more = probes_match rounds bits delta ((h + delta) % 2 ^ 32) array in
    remainder h bits >>= λ bit_pos. get_elem? array (bit_pos / 8) >>= λ byte.
    if bit_and byte (2 ^ (bit_pos % 8)) == 0 then some false else more

unfoldable pub key_may_match : Bytes → Bytes → Option Bool
key_may_match key filter =
    let len = length filter in
    let array = take (len - 1) filter in
    if ltb len 2
    then some false
    else get_elem? filter (len - 1) >>= λ k.
        let h = hash key hash_seed in
        let probes = probes_match k (length array * 8 % 2 ^ 64) (rotate_left_15 h) h array in
        if ltb 30 k then some true else probes

unfoldable pub user_key_of : Bytes → Bytes
user_key_of internal_key =
    let len = length internal_key in if leb 8 len then take (len - 8) internal_key else internal_key

-- `InternalFilterPolicy` over a Bloom filter.
unfoldable pub create_internal_filter : BloomFilterPolicy → List Bytes → Bytes → Option Bytes
create_internal_filter policy keys dst = create_filter policy (map user_key_of keys) dst

unfoldable pub internal_key_may_match : Bytes → Bytes → Option Bool
internal_key_may_match key filter = key_may_match (user_key_of key) filter

abbrev pub bloom : ℕ → FilterPolicy
bloom bits_per_key = record {
  create_filter = create_filter (new bits_per_key);
  key_may_match = key_may_match;
}
