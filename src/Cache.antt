-- ===== src/Cache.antt =====
-- src/cache/cache.rs: one shard of the cache, and the cache of sixteen shards.
-- A shard's hash map is an association list, which has each key once; the order of the list stands for
-- no order of the source. A handle is the entry itself: it is shared and never written.
pub mod Entries
pub mod Shard
pub mod Eviction
pub mod Operations
pub mod Calls
pub mod Recency
pub mod Sharded
mod Examples
use pulsearc_db.Base.{
  ℕ, zero, suc, ◌+◌, ◌-◌, ◌*◌, ◌/◌, ◌%◌, ◌^◌, Bool, true, false, Bytes, List, [], ◌∷◌, map, Option,
  none, some, length, get_elem?, set, replicate, ltb, leb, ◌&&◌, not, if◌then◌else◌,
}
use pulsearc_db.Base.Equal.{bytes_eq}
use pulsearc_db.Hash.{hash}

abbrev pub num_shard_bits : ℕ
num_shard_bits = 4

abbrev pub num_shards : ℕ
num_shards = 2 ^ num_shard_bits

pub record Entry {ℓ} (V : Type ℓ) : Type ℓ where
  pub value : V
  pub charge : ℕ

pub record ShardEntry {ℓ} (V : Type ℓ) : Type ℓ where
  pub arc : Entry V
  pub last_access : ℕ

pub record LruShard {ℓ} (V : Type ℓ) : Type ℓ where
  pub entries : List (Bytes × ShardEntry V)
  pub usage : ℕ
  pub capacity : ℕ
  pub counter : ℕ

module _ {ℓ} {V : Type ℓ} where
  -- `HashMap::get`, `remove` and `get_mut`.
  unfoldable pub find : Bytes → List (Bytes × ShardEntry V) → Option (ShardEntry V)
  find key [] = none
  find key ((k, e) ∷ es) = if bytes_eq k key then some e else find key es

  unfoldable pub remove : Bytes → List (Bytes × ShardEntry V) → List (Bytes × ShardEntry V)
  remove key [] = []
  remove key ((k, e) ∷ es) = if bytes_eq k key then es else (k, e) ∷ remove key es

  unfoldable pub touch : Bytes → ℕ → List (Bytes × ShardEntry V) → List (Bytes × ShardEntry V)
  touch key now [] = []
  touch key now ((k, e) ∷ es) =
      if bytes_eq k key
      then (k, record { arc = e.arc; last_access = now }) ∷ es
      else (k, e) ∷ touch key now es

  unfoldable pub new_shard : ℕ → LruShard V
  new_shard capacity = record { entries = []; usage = 0; capacity = capacity; counter = 0 }

  unfoldable pub erase : Bytes → LruShard V → LruShard V
  erase key s = elim (find key s.entries) [
    | none ↦ s
    | some old ↦ record s { entries = remove key s.entries; usage = s.usage - old.arc.charge }
  ]

  -- `min_by_key`: the first entry with the least access.
  unfoldable pub oldest : List (Bytes × ShardEntry V) → Option (Bytes × ShardEntry V)
  oldest [] = none
  oldest ((k, e) ∷ es) = elim (oldest es) [
    | none ↦ some (k, e)
    | some (j, d) ↦ if leb e.last_access d.last_access then some (k, e) else some (j, d)
  ]

  unfoldable pub evict_oldest : LruShard V → LruShard V
  evict_oldest s = elim (oldest s.entries) [ none ↦ s | some (k, e) ↦ erase k s ]

  unfoldable pub is_empty : List (Bytes × ShardEntry V) → Bool
  is_empty [] = true
  is_empty (e ∷ es) = false

  -- The `while` loop of `insert`, for at most so many rounds.
  unfoldable pub evict_loop : ℕ → ℕ → LruShard V → LruShard V
  evict_loop zero charge s = s
  evict_loop (suc rounds) charge s =
      let next = evict_loop rounds charge (evict_oldest s) in
      if ltb s.capacity ((s.usage + charge) % 2 ^ 64) && not (is_empty s.entries) then next else s

  -- A round drops an entry, so there are no more rounds than entries.
  unfoldable pub make_room : ℕ → LruShard V → LruShard V
  make_room charge s = evict_loop (length s.entries) charge s

  unfoldable pub insert : Bytes → V → ℕ → LruShard V → LruShard V × Entry V
  insert key value charge s =
      let arc : Entry V = record { value = value; charge = charge } in
      let room = make_room charge (erase key s) in
      let now = (room.counter + 1) % 2 ^ 64 in
      (
        record room {
          entries = (key, record { arc = arc; last_access = now }) ∷ room.entries;
          usage = (room.usage + charge) % 2 ^ 64;
          counter = now;
        },
        arc,
      )

  unfoldable pub lookup : Bytes → LruShard V → LruShard V × Option (Entry V)
  lookup key s =
      let now = (s.counter + 1) % 2 ^ 64 in
      elim (find key s.entries) [
        | none ↦ (record s { counter = now }, none)
        | some e ↦ (record s { entries = touch key now s.entries; counter = now }, some e.arc)
      ]

  -- The sum of the charges.
  unfoldable pub charges : List (Bytes × ShardEntry V) → ℕ
  charges [] = 0
  charges ((k, e) ∷ es) = e.arc.charge + charges es

  -- `retain`: `held` says which entries have a handle outside the shard.
  unfoldable pub retain : (Bytes → Bool) → List (Bytes × ShardEntry V) → List (Bytes × ShardEntry V)
  retain held [] = []
  retain held ((k, e) ∷ es) = if held k then (k, e) ∷ retain held es else retain held es

  unfoldable pub prune : (Bytes → Bool) → LruShard V → LruShard V
  prune held s =
      let kept = retain held s.entries in record s { entries = kept; usage = charges kept % 2 ^ 64 }
