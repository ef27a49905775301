-- ===== src/Cache/Sharded.antt =====
-- src/cache/cache.rs: `ShardedLRUCache`. The lock of a shard is held for one operation of it, so an
-- operation of the cache is one of the shard; `panicked` is a shard's index out of range.
use native.Mathlib.Nat.{div-le_self}
use pulsearc_db.Base.{
  ap, ◌∙◌, ℕ, ◌+◌, ◌-◌, ◌*◌, ◌/◌, ◌%◌, ◌^◌, ◌<◌, Bool, Bytes, List, [], ◌∷◌, Option, some, ◌≡◌,
  refl, arith, map, length, get_elem?, set, replicate, bit_xor, length-replicate, length-set,
}
use pulsearc_db.Base.Positions.{get_elem?-lt, get_elem?-set}
use pulsearc_db.Base.Bits.{bit_xor-lt}
use pulsearc_db.Result.{Result, ok, ◌>>=◌, expect}
use pulsearc_db.Hash.{hash, hash_loop, mix}
use pulsearc_db.Cache.{
  Entry, LruShard, num_shards, num_shard_bits, new_shard, insert, lookup, erase, prune,
}
use pulsearc_db.Cache.Operations.{lookup-insert}

pub record ShardedLruCache {ℓ} (V : Type ℓ) : Type ℓ where
  pub shards : List (LruShard V)
  pub next_id : ℕ

-- `h >> (32 - NUM_SHARD_BITS)`
unfoldable pub shard_index : Bytes → ℕ
shard_index key = hash key 0 / 2 ^ (32 - num_shard_bits)

module _ {ℓ} {V : Type ℓ} where
  -- The capacity is divided among the shards, and rounded up.
  unfoldable pub new_cache : ℕ → ShardedLruCache V
  new_cache capacity = record {
    shards = replicate num_shards (new_shard ((capacity + (num_shards - 1)) / num_shards));
    next_id = 1;
  }

  unfoldable pub shard_for : Bytes → ShardedLruCache V → Result (LruShard V)
  shard_for key c = expect (get_elem? c.shards (shard_index key))

  unfoldable pub put_shard : Bytes → LruShard V → ShardedLruCache V → ShardedLruCache V
  put_shard key s c = record c { shards = set c.shards (shard_index key) s }

  unfoldable pub cache_insert :
      Bytes → V → ℕ → ShardedLruCache V → Result (ShardedLruCache V × Entry V)
  cache_insert key value charge c = do
    s ← shard_for key c
    ok (put_shard key (insert key value charge s).0 c, (insert key value charge s).1)

  unfoldable pub cache_lookup :
      Bytes → ShardedLruCache V → Result (ShardedLruCache V × Option (Entry V))
  cache_lookup key c = do
    s ← shard_for key c
    ok (put_shard key (lookup key s).0 c, (lookup key s).1)

  unfoldable pub cache_erase : Bytes → ShardedLruCache V → Result (ShardedLruCache V)
  cache_erase key c = do s ← shard_for key c; ok (put_shard key (erase key s) c)

  unfoldable pub new_id : ShardedLruCache V → ShardedLruCache V × ℕ
  new_id c = (record c { next_id = (c.next_id + 1) % 2 ^ 64 }, c.next_id)

  unfoldable pub usages : List (LruShard V) → ℕ
  usages [] = 0
  usages (s ∷ shards) = s.usage + usages shards

  unfoldable pub total_charge : ShardedLruCache V → ℕ
  total_charge c = usages c.shards % 2 ^ 64

  unfoldable pub cache_prune : (Bytes → Bool) → ShardedLruCache V → ShardedLruCache V
  cache_prune held c = record c { shards = map (prune held) c.shards }

mix-lt : (shift h word : ℕ) → mix shift h word < 2 ^ 32
unfolding mix
mix-lt shift h word =
    let m = (h + word) % 2 ^ 32 * 0xc6a4a793 % 2 ^ 32 in
    bit_xor-lt 32 m (m / 2 ^ shift) (omega arith) (omega (arith, div-le_self m (2 ^ shift)))

hash_loop-lt : (input : Bytes) (h : ℕ) → h < 2 ^ 32 → hash_loop input h < 2 ^ 32
unfolding hash_loop
hash_loop-lt [] h small = small
hash_loop-lt (a ∷ []) h small = mix-lt 24 h a
hash_loop-lt (a ∷ b ∷ []) h small = mix-lt 24 _ a
hash_loop-lt (a ∷ b ∷ c ∷ []) h small = mix-lt 24 _ a
hash_loop-lt (a ∷ b ∷ c ∷ d ∷ rest) h small = hash_loop-lt rest _ (mix-lt 16 h _)

-- The top bits of the hash number a shard.
shard_index-lt : (key : Bytes) → shard_index key < num_shards
unfolding shard_index hash
shard_index-lt key =
    let start = length key % 2 ^ 32 * 0xc6a4a793 % 2 ^ 32 in
    let h = hash_loop key (bit_xor 0 start) in
    let small : h < 2 ^ 32 =
      hash_loop-lt key (bit_xor 0 start) (bit_xor-lt 32 0 start (omega arith) (omega arith)) in
    omega arith

module _ {ℓ} {V : Type ℓ} where
  -- A cache has its sixteen shards.
  abbrev pub IsCache : ShardedLruCache V → Type 0
  IsCache c = length c.shards ≡ num_shards

  shard_of :
      (key : Bytes) (c : ShardedLruCache V)
      → IsCache c
      → (s : LruShard V) × (get_elem? c.shards (shard_index key) ≡ some s)
  shard_of key c full = get_elem?-lt c.shards (shard_index key) (omega (arith, shard_index-lt key))

  -- On a cache of sixteen shards no index is out of range: an insertion succeeds, leaves sixteen
  -- shards, and the value is found behind it with its charge.
  pub cache_lookup-cache_insert :
      (key : Bytes) (value : V) (charge : ℕ) (c : ShardedLruCache V)
      → IsCache c
      → (c' : ShardedLruCache V) × (c'' : ShardedLruCache V) × (cache_insert key value charge c
          ≡ ok (c', record { value = value; charge = charge }))
        × IsCache c'
        × (cache_lookup key c' ≡ ok (c'', some (record { value = value; charge = charge })))
  unfolding cache_insert cache_lookup shard_for put_shard
  cache_lookup-cache_insert key value charge c full =
      let (s, found) = shard_of key c full in
      let inside : shard_index key < length c.shards = omega (arith, shard_index-lt key) in
      let s' = (insert key value charge s).0 in
      (
        put_shard key s' c,
        put_shard key (lookup key s').0 (put_shard key s' c),
        rw found (ap (λ (e : Entry V). ok (put_shard key s' c, e)) (arc_of s)),
        length-set c.shards (shard_index key) s' ∙ full,
        rw (get_elem?-set c.shards (shard_index key) s' inside) (
            ap (λ o. ok (put_shard key (lookup key s').0 (put_shard key s' c), o))
              (lookup-insert key value charge s)),
      )
    where
      arc_of :
          (s : LruShard V)
          → (insert key value charge s).1 ≡ record { value = value; charge = charge }
      arc_of s = unfold insert in refl

pub new_cache-IsCache {ℓ} : (V : Type ℓ) (capacity : ℕ) → IsCache (new_cache {V = V} capacity)
unfolding new_cache
new_cache-IsCache V capacity =
    length-replicate num_shards (new_shard {V = V} ((capacity + (num_shards - 1)) / num_shards))
