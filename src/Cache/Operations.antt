-- ===== src/Cache/Operations.antt =====
-- src/cache/cache.rs: what the operations of a shard do, and what holds after any of them.
use pulsearc_db.Base.{
  ℕ, ◌+◌, ◌%◌, ◌^◌, ◌≤◌, ◌<◌, Bytes, [], none, some, ◌≡◌, refl, ◌∙◌, ap, arith, inl, inr, ◌⊎◌,
  Option-cases, ◌≢◌, sym,
}
use pulsearc_db.Base.Equal.{bytes_eq_self, bytes_eq_ne}
use pulsearc_db.Cache.{Entry, ShardEntry, LruShard, find, charges, erase, make_room, insert, lookup}
use pulsearc_db.Cache.Entries.{charges_cons}
use pulsearc_db.Cache.Shard.{
  IsShard, IsPart, IsPart-trans, erase-IsPart, find-erase_self, find-erase_other,
}
use pulsearc_db.Cache.Eviction.{HasRoom, make_room_lem}

module _ {ℓ} {V : Type ℓ} where
  -- The shard without the key, with room for the charge.
  abbrev pub room_for : Bytes → ℕ → LruShard V → LruShard V
  room_for key charge s = make_room charge (erase key s)

  pub room_for_lem :
      (key : Bytes) (charge : ℕ) (s : LruShard V)
      → IsShard s
      → s.usage + charge < 2 ^ 64
      → IsPart s (room_for key charge s)
        × HasRoom charge (room_for key charge s)
        × (find key (room_for key charge s).entries ≡ none)
  room_for_lem key charge s v small =
      let erased = erase-IsPart key s v in
      let (part, room) =
        make_room_lem charge (erase key s) erased.valid (omega (arith, erased.usage)) in
      (IsPart-trans s _ _ erased part, room, absent part)
    where
      absent :
          IsPart (erase key s) (room_for key charge s)
          → find key (room_for key charge s).entries ≡ none
      absent part = elim (Option-cases (find key (room_for key charge s).entries)) [
        | inl gone ↦ gone
        | inr (e, found) ↦ cc (part.held key e found, find-erase_self key s v)
      ]

  inserted_usage :
      (charge : ℕ) (r : LruShard V)
      → IsShard r
      → HasRoom charge r
      → r.usage + charge < 2 ^ 64
      → (r.usage + charge ≤ r.capacity) ⊎ (r.usage + charge ≡ charge)
  inserted_usage charge r v (inl room) small = inl room
  inserted_usage charge r v (inr none_left) small =
      inr (omega (arith, v.counted, ap charges none_left, no_charges))
    where
      no_charges : charges {V = V} [] ≡ 0
      no_charges = unfold charges in refl

  abbrev fresh_entry : V → ℕ → ℕ → ShardEntry V
  fresh_entry value charge now = record {
    arc = record { value = value; charge = charge };
    last_access = now;
  }

  -- If the sizes do not overflow, a shard whose usage is the sum of its charges, and that holds no
  -- key twice, is again so behind an insertion, of the same capacity; the usage is then within the
  -- capacity, or the new entry is the only one that counts.
  pub insert-IsShard :
      (key : Bytes) (value : V) (charge : ℕ) (s : LruShard V)
      → IsShard s
      → s.usage + charge < 2 ^ 64
      → IsShard (insert key value charge s).0
        × ((insert key value charge s).0.capacity ≡ s.capacity)
        × (((insert key value charge s).0.usage ≤ s.capacity)
            ⊎ ((insert key value charge s).0.usage ≡ charge))
  unfolding insert
  insert-IsShard key value charge s v small =
      let (part, room, gone) = room_for_lem key charge s v small in
      let r = room_for key charge s in
      let entry_of = λ (t : LruShard V). fresh_entry value charge ((t.counter + 1) % 2 ^ 64) in
      let exact : (r.usage + charge) % 2 ^ 64 ≡ r.usage + charge = omega (arith, part.usage) in
      (
        record {
          counted =
              exact ∙ omega (arith, part.valid.counted, charges_cons key (entry_of r) r.entries);
          distinct = (gone, part.valid.distinct);
          fits = omega arith;
        },
        part.capacity,
        within r part.capacity exact
            (inserted_usage charge r part.valid room (omega (arith, part.usage))),
      )
    where
      within :
          (r : LruShard V)
          → r.capacity ≡ s.capacity
          → (r.usage + charge) % 2 ^ 64 ≡ r.usage + charge
          → (r.usage + charge ≤ r.capacity) ⊎ (r.usage + charge ≡ charge)
          → ((r.usage + charge) % 2 ^ 64 ≤ s.capacity) ⊎ ((r.usage + charge) % 2 ^ 64 ≡ charge)
      within r c e (inl room) = inl (omega arith)
      within r c e (inr alone) = inr (omega arith)

  find-insert_self :
      (key : Bytes) (value : V) (charge : ℕ) (s : LruShard V)
      → (now : ℕ) × (find key (insert key value charge s).0.entries
          ≡ some (record { arc = (insert key value charge s).1; last_access = now }))
  unfolding insert find
  find-insert_self key value charge s =
      (((room_for key charge s).counter + 1) % 2 ^ 64, rw (bytes_eq_self key) refl)

  -- An entry is found as it was inserted.
  pub lookup-insert :
      (key : Bytes) (value : V) (charge : ℕ) (s : LruShard V)
      → (lookup key (insert key value charge s).0).1
        ≡ some (record { value = value; charge = charge })
  unfolding lookup insert
  lookup-insert key value charge s =
      let (now, found) = find-insert_self key value charge s in ground arith

  lookup_entry :
      (key : Bytes) (s : LruShard V) (arc : Entry V)
      → (lookup key s).1 ≡ some arc
      → (e : ShardEntry V) × (find key s.entries ≡ some e) × (e.arc ≡ arc)
  unfolding lookup
  lookup_entry key s arc h = elim (Option-cases (find key s.entries)) [
    | inl absent ↦ absurd (ground arith)
    | inr (e, found) ↦ (e, found, ground arith)
  ]

  found_behind :
      (key j : Bytes) (value : V) (charge : ℕ) (s : LruShard V) (arc : Entry V)
      → key ≢ j
      → (lookup j (insert key value charge s).0).1 ≡ some arc
      → (e : ShardEntry V) × (find j (room_for key charge s).entries ≡ some e) × (e.arc ≡ arc)
  found_behind key j value charge s arc other h =
      let (e, found, same) = lookup_entry j (insert key value charge s).0 arc h in
      (e, sym skip ∙ found, same)
    where
      skip : find j (insert key value charge s).0.entries ≡ find j (room_for key charge s).entries
      skip = unfold insert find in rw (bytes_eq_ne key j other) refl

  lookup_of_find :
      (key : Bytes) (s : LruShard V) (e : ShardEntry V)
      → find key s.entries ≡ some e
      → (lookup key s).1 ≡ some e.arc
  unfolding lookup
  lookup_of_find key s e found = ground arith

  -- If the sizes do not overflow, an insertion changes nothing of another key but that it may be
  -- evicted: what is found of it behind the insertion was found before.
  pub lookup-insert_other :
      (key j : Bytes) (value : V) (charge : ℕ) (s : LruShard V) (arc : Entry V)
      → key ≢ j
      → IsShard s
      → s.usage + charge < 2 ^ 64
      → (lookup j (insert key value charge s).0).1 ≡ some arc
      → (lookup j s).1 ≡ some arc
  lookup-insert_other key j value charge s arc other v small h =
      let (e, found, same) = found_behind key j value charge s arc other h in
      let (part, _, _) = room_for_lem key charge s v small in
      lookup_of_find j s e (part.held j e found) ∙ ap some same

  -- A key that is erased is not found, and no other lookup changes.
  pub lookup-erase :
      (key j : Bytes) (s : LruShard V)
      → IsShard s
      → ((lookup key (erase key s)).1 ≡ none)
        × (key ≢ j → (lookup j (erase key s)).1 ≡ (lookup j s).1)
  lookup-erase key j s v =
      (missing, λ other. lookup_same (erase key s) s (find-erase_other key j s other))
    where
      missing : (lookup key (erase key s)).1 ≡ none
      missing = unfold lookup in ground (arith, find-erase_self key s v)

      lookup_same :
          (a b : LruShard V) → find j a.entries ≡ find j b.entries → (lookup j a).1 ≡ (lookup j b).1
      lookup_same a b e = unfold lookup in ground arith
