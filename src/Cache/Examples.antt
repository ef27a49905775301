-- ===== src/Cache/Examples.antt =====
-- src/cache/cache.rs on a shard of capacity 10 and three keys.
use pulsearc_db.Base.{ℕ, ◌≤◌, Bytes, [], ◌∷◌, ◌≡◌, ◌≢◌, refl, arith, some, none, ◌⊎◌}
use pulsearc_db.Base.Equal.{bytes_eq, bytes_ne}
use pulsearc_db.Result.{ok}
use pulsearc_db.Cache.{
  ShardEntry, LruShard, new_shard, insert, lookup, erase, find, make_room, evict_loop, evict_oldest,
  oldest, is_empty, remove, charges,
}
use pulsearc_db.Cache.Shard.{IsShard}
use pulsearc_db.Cache.Calls.{here, next, insert_call, IsWithin, reachable-IsWithin}
use pulsearc_db.Cache.Operations.{lookup-insert_other}
use pulsearc_db.Cache.Recency.{insert_evicts_oldest}
use pulsearc_db.Cache.Sharded.{
  ShardedLruCache, IsCache, new_cache, new_cache-IsCache, cache_insert, cache_lookup,
  cache_lookup-cache_insert,
}

-- The keys `a` and `b`, inserted in this order with a charge of 4 each.
abbrev two_keys : LruShard ℕ
two_keys = record {
  entries =
      (98 ∷ [], record { arc = record { value = 8; charge = 4 }; last_access = 2 })
      ∷ (97 ∷ [], record { arc = record { value = 7; charge = 4 }; last_access = 1 })
      ∷ [];
  usage = 8;
  capacity = 10;
  counter = 2;
}

two_keys_lem : (insert (98 ∷ []) 8 4 (insert (97 ∷ []) 7 4 (new_shard 10)).0).0 ≡ two_keys
unfolding insert new_shard make_room erase evict_loop is_empty find bytes_eq
two_keys_lem = refl

two_keys-IsShard : IsShard two_keys
unfolding charges find bytes_eq
two_keys-IsShard = record { counted = refl; distinct = (refl, (refl, tt)); fits = omega arith }

-- A third key takes the place of `a`.
evicts_a : find (97 ∷ []) (insert (99 ∷ []) 9 4 two_keys).0.entries ≡ none
unfolding insert make_room erase evict_loop evict_oldest oldest is_empty find remove bytes_eq
evicts_a = refl

keeps_b :
    (lookup (98 ∷ []) (insert (99 ∷ []) 9 4 two_keys).0).1 ≡ some (record { value = 8; charge = 4 })
unfolding lookup insert make_room erase evict_loop evict_oldest oldest is_empty find remove bytes_eq
keeps_b = refl

c_is_not_a : ◌≢◌ {A = Bytes} (99 ∷ []) (97 ∷ [])
unfolding bytes_eq
c_is_not_a = bytes_ne (99 ∷ []) (97 ∷ []) refl

c_is_not_b : ◌≢◌ {A = Bytes} (99 ∷ []) (98 ∷ [])
unfolding bytes_eq
c_is_not_b = bytes_ne (99 ∷ []) (98 ∷ []) refl

reachable-IsWithin_example : IsWithin {V = ℕ} 4 10 (insert (97 ∷ []) 7 4 (new_shard 10)).0
reachable-IsWithin_example =
    reachable-IsWithin {V = ℕ} 4 10 (omega arith) (omega arith)
      (insert (97 ∷ []) 7 4 (new_shard 10)).0
      (next here (insert_call (97 ∷ []) 7 4 (new_shard 10) (omega arith)))

lookup-insert_other_example :
    (lookup (98 ∷ []) two_keys).1 ≡ some (record { value = 8; charge = 4 })
lookup-insert_other_example =
    lookup-insert_other (99 ∷ []) (98 ∷ []) 9 4 two_keys (record { value = 8; charge = 4 })
      c_is_not_b two_keys-IsShard (omega arith) keeps_b

abbrev entry_a : ShardEntry ℕ
entry_a = record { arc = record { value = 7; charge = 4 }; last_access = 1 }

found_a : find (97 ∷ []) two_keys.entries ≡ some entry_a
unfolding find bytes_eq
found_a = refl

insert_evicts_oldest_example :
    (find (97 ∷ []) (insert (99 ∷ []) 9 4 two_keys).0.entries ≡ some entry_a)
    ⊎ ((i : Bytes) (d : ShardEntry ℕ)
        → ◌≢◌ {A = Bytes} (99 ∷ []) i
        → find i (insert (99 ∷ []) 9 4 two_keys).0.entries ≡ some d
        → 1 ≤ d.last_access)
insert_evicts_oldest_example =
    insert_evicts_oldest (99 ∷ []) (97 ∷ []) 9 4 two_keys entry_a c_is_not_a two_keys-IsShard
      found_a

cache_lookup-cache_insert_example :
    (c' : ShardedLruCache ℕ) × (c'' : ShardedLruCache ℕ) × (cache_insert
        (97 ∷ [])
        7
        4
        (new_cache 160)
      ≡ ok (c', record { value = 7; charge = 4 }))
    × IsCache c'
    × (cache_lookup (97 ∷ []) c' ≡ ok (c'', some (record { value = 7; charge = 4 })))
cache_lookup-cache_insert_example =
    cache_lookup-cache_insert (97 ∷ []) 7 4 (new_cache 160) (new_cache-IsCache ℕ 160)
