-- ===== src/Cache/Calls.antt =====
-- src/cache/cache.rs: what holds after any sequence of calls of a shard.
use pulsearc_db.Base.{
  ℕ, ◌+◌, ◌%◌, ◌^◌, ◌≤◌, ◌<◌, Bool, Bytes, none, some, ◌≡◌, refl, sym, ◌∙◌, arith, inl, inr, ◌⊎◌,
  Option-cases,
}
use pulsearc_db.Cache.{
  ShardEntry, LruShard, find, touch, charges, erase, insert, lookup, prune, new_shard,
}
use pulsearc_db.Cache.Entries.{charges-touch, touch-Distinct, retain-Distinct, charges-retain-le}
use pulsearc_db.Cache.Shard.{IsShard, erase-IsPart}
use pulsearc_db.Cache.Operations.{insert-IsShard}

module _ (most capacity : ℕ) where
  -- A usage within the capacity, or at most one charge.
  abbrev Bounded : ℕ → Type 0
  Bounded usage = (usage ≤ capacity) ⊎ (usage ≤ most)

  no_overflow :
      capacity + most < 2 ^ 64
      → most + most < 2 ^ 64
      → (charge usage : ℕ) → charge ≤ most
      → Bounded usage
      → usage + charge < 2 ^ 64
  no_overflow small single charge usage le (inl h) = omega arith
  no_overflow small single charge usage le (inr h) = omega arith

  smaller : (less usage : ℕ) → less ≤ usage → Bounded usage → Bounded less
  smaller less usage le (inl h) = inl (omega arith)
  smaller less usage le (inr h) = inr (omega arith)

  inserted :
      (charge usage bound : ℕ)
      → charge ≤ most
      → bound ≡ capacity
      → (usage ≤ bound) ⊎ (usage ≡ charge)
      → Bounded usage
  inserted charge usage bound le c (inl h) = inl (omega arith)
  inserted charge usage bound le c (inr h) = inr (omega arith)

module _ {ℓ} {V : Type ℓ} where
  -- A call of a shard, each charge at most `most`; `held` is what has a handle outside.
  pub data Step (most : ℕ) : LruShard V → LruShard V → Type ℓ where
    insert_call :
        (key : Bytes) (value : V) (charge : ℕ) (s : LruShard V)
        → charge ≤ most
        → Step most s (insert key value charge s).0
    lookup_call : (key : Bytes) (s : LruShard V) → Step most s (lookup key s).0
    erase_call : (key : Bytes) (s : LruShard V) → Step most s (erase key s)
    prune_call : (held : Bytes → Bool) (s : LruShard V) → Step most s (prune held s)

  pub data Reach (most : ℕ) (s : LruShard V) : LruShard V → Type ℓ where
    here : Reach most s s
    next : {t u : LruShard V} → Reach most s t → Step most t u → Reach most s u

  pub record IsWithin (most capacity : ℕ) (s : LruShard V) : Type ℓ where
    pub valid : IsShard s
    pub same : s.capacity ≡ capacity
    pub bound : (s.usage ≤ capacity) ⊎ (s.usage ≤ most)

  lookup-IsShard :
      (key : Bytes) (s : LruShard V)
      → IsShard s
      → IsShard (lookup key s).0
        × ((lookup key s).0.usage ≡ s.usage)
        × ((lookup key s).0.capacity ≡ s.capacity)
  lookup-IsShard key s v = elim (Option-cases (find key s.entries)) [
    | inl absent ↦ rw (missed absent) (same_accounts, refl, refl)
    | inr (e, found) ↦ rw (hit e found) (
      record {
        counted = v.counted ∙ sym (charges-touch key ((s.counter + 1) % 2 ^ 64) s.entries);
        distinct = touch-Distinct key ((s.counter + 1) % 2 ^ 64) s.entries v.distinct;
        fits = v.fits;
      },
      refl,
      refl,
    )
  ]
    where
      missed :
          find key s.entries ≡ none
          → (lookup key s).0 ≡ record s { counter = (s.counter + 1) % 2 ^ 64 }
      missed absent = unfold lookup in ground arith

      hit :
          (e : ShardEntry V)
          → find key s.entries ≡ some e
          → (lookup key s).0 ≡ record s {
            entries = touch key ((s.counter + 1) % 2 ^ 64) s.entries;
            counter = (s.counter + 1) % 2 ^ 64;
          }
      hit e found = unfold lookup in ground arith

      same_accounts : IsShard (record s { counter = (s.counter + 1) % 2 ^ 64 })
      same_accounts = record { counted = v.counted; distinct = v.distinct; fits = v.fits }

  prune-IsShard :
      (held : Bytes → Bool) (s : LruShard V)
      → IsShard s
      → IsShard (prune held s) × ((prune held s).usage ≤ s.usage)
  unfolding prune
  prune-IsShard held s v =
      let fewer = charges-retain-le held s.entries in
      (
        record {
          counted = omega (arith, v.counted, v.fits);
          distinct = retain-Distinct held s.entries v.distinct;
          fits = omega arith;
        },
        omega (arith, v.counted, v.fits),
      )

  module _ (most capacity : ℕ) (small : capacity + most < 2 ^ 64)
      (single : most + most < 2 ^ 64) where
    Step-IsWithin :
        {s t : LruShard V} → Step most s t → IsWithin most capacity s → IsWithin most capacity t
    Step-IsWithin (insert_call key value charge s le) w =
        let (valid, same, bound) =
          insert-IsShard key value charge s w.valid
            (no_overflow most capacity small single charge s.usage le w.bound) in
        record {
          valid = valid;
          same = same ∙ w.same;
          bound = inserted most capacity charge _ s.capacity le w.same bound;
        }
    Step-IsWithin (lookup_call key s) w =
        let (valid, usage, same) = lookup-IsShard key s w.valid in
        record {
          valid = valid;
          same = same ∙ w.same;
          bound = smaller most capacity _ s.usage (omega arith) w.bound;
        }
    Step-IsWithin (erase_call key s) w =
        let part = erase-IsPart key s w.valid in
        record {
          valid = part.valid;
          same = part.capacity ∙ w.same;
          bound = smaller most capacity _ s.usage part.usage w.bound;
        }
    Step-IsWithin (prune_call held s) w =
        let (valid, usage) = prune-IsShard held s w.valid in
        record { valid = valid; same = kept; bound = smaller most capacity _ s.usage usage w.bound }
      where
        kept : (prune held s).capacity ≡ capacity
        kept = unfold prune in w.same

    Reach-IsWithin :
        {s t : LruShard V} → IsWithin most capacity s → Reach most s t → IsWithin most capacity t
    Reach-IsWithin w here = w
    Reach-IsWithin w (next r step) = Step-IsWithin step (Reach-IsWithin w r)

    -- After any calls on a new shard, none with a charge above `most`, the usage is the sum of the
    -- charges, no key is held twice, and the usage is within the capacity or that of one insertion,
    -- provided that the capacity and two such charges fit the machine's word.
    pub reachable-IsWithin :
        (s : LruShard V) → Reach most (new_shard capacity) s → IsWithin most capacity s
    reachable-IsWithin s r = Reach-IsWithin fresh r
      where
        fresh : IsWithin most capacity (new_shard capacity)
        fresh =
            unfold new_shard charges in
            record {
              valid = record { counted = refl; distinct = tt; fits = omega arith };
              same = refl;
              bound = inl (omega arith);
            }
