-- ===== src/Cache/Recency.antt =====
-- src/cache/cache.rs: what is evicted is what was used least recently.
use pulsearc_db.Base.{
  ℕ, zero, suc, ◌+◌, ◌%◌, ◌^◌, ◌≤◌, true, false, Bytes, List, [], ◌∷◌, none, some, ◌≡◌, ◌≢◌, refl,
  sym, ◌∙◌, ap, arith, inl, inr, ◌⊎◌, length, Option-cases, Bool-cases, ltb,
}
use pulsearc_db.Base.Equal.{bytes_ne, bytes_eq, bytes_eq→eq, bytes_eq_ne}
use pulsearc_db.Cache.{
  ShardEntry, LruShard, find, erase, insert, oldest, evict_oldest, evict_loop, make_room, is_empty,
}
use pulsearc_db.Cache.Shard.{
  IsShard, IsPart, erase-IsPart, evict_oldest-IsPart, evict_oldest-some, oldest-find, oldest-cons,
  find-erase_other,
}
use pulsearc_db.Cache.Eviction.{evict_loop-IsPart}
use pulsearc_db.Cache.Operations.{room_for}

module _ {ℓ} {V : Type ℓ} where
  -- Every entry of `es` was used no earlier than at `time`.
  abbrev pub NotBefore : ℕ → List (Bytes × ShardEntry V) → Type ℓ
  NotBefore time es = (i : Bytes) (d : ShardEntry V) → find i es ≡ some d → time ≤ d.last_access

  oldest_least :
      (es : List (Bytes × ShardEntry V)) (k : Bytes) (e : ShardEntry V)
      → oldest es ≡ some (k, e)
      → NotBefore e.last_access es
  unfolding oldest find
  oldest_least [] k e least i d found = cc
  oldest_least ((j, c) ∷ es) k e least i d found = elim (Option-cases (oldest es)) [
    | inl last ↦ ground (arith, nothing es i d)
    | inr ((m, f), more) ↦ let rest = oldest_least es m f more i d in ground (arith, rest)
  ]
    where
      nothing :
          (rest : List (Bytes × ShardEntry V)) (a : Bytes) (b : ShardEntry V)
          → oldest rest ≡ none
          → find a rest ≡ some b
          → ⊥
      nothing [] a b p q = cc
      nothing ((a', b') ∷ rest) a b p q = ground (arith)

  -- An entry of the first shard is in the second, or nothing there was used before it.
  abbrev pub KeepsRecent : LruShard V → LruShard V → Type ℓ
  KeepsRecent s r =
      (j : Bytes) (e : ShardEntry V)
      → find j s.entries ≡ some e
      → (find j r.entries ≡ some e) ⊎ NotBefore e.last_access r.entries

  trans : (s r t : LruShard V) → KeepsRecent s r → KeepsRecent r t → IsPart r t → KeepsRecent s t
  trans s r t p q part j e found = elim (p j e found) [
    | inl there ↦ q j e there
    | inr older ↦ inr (λ i d later. older i d (part.held i d later))
  ]

  evict_oldest_keeps :
      (s : LruShard V) (k : Bytes) (e : ShardEntry V)
      → IsShard s
      → oldest s.entries ≡ some (k, e)
      → KeepsRecent s (evict_oldest s)
  evict_oldest_keeps s k e v least j d found =
      let least_of = oldest_least s.entries k e least in
      let part = erase-IsPart k s v in
      rw (evict_oldest-some s k e least) (elim (Bool-cases (bytes_eq k j)) [
        | inl same ↦
            let one : d.last_access ≡ e.last_access =
              ap (λ (c : ShardEntry V). c.last_access) (the_one same) in
            inr (λ i c later. omega (arith, least_of i c (part.held i c later)))
        | inr other ↦ inl (find-erase_other k j s (bytes_ne k j other) ∙ found)
      ])
    where
      the_one : bytes_eq k j ≡ true → d ≡ e
      the_one same =
          let here = oldest-find s.entries k e v.distinct least in
          let eq = bytes_eq→eq k j same in cc

  evicts :
      (s : LruShard V)
      → is_empty s.entries ≡ false
      → (m : Bytes × ShardEntry V) × (oldest s.entries ≡ some m)
  evicts s some_left = least_of s.entries some_left
    where
      least_of :
          (es : List (Bytes × ShardEntry V))
          → is_empty es ≡ false
          → (m : Bytes × ShardEntry V) × (oldest es ≡ some m)
      least_of [] h = unfold is_empty in cc
      least_of ((k, e) ∷ es) h = oldest-cons k e es

  evict_loop_keeps :
      (rounds charge : ℕ) (s : LruShard V) → IsShard s → KeepsRecent s (evict_loop rounds charge s)
  unfolding evict_loop
  evict_loop_keeps zero charge s v j e found = inl found
  evict_loop_keeps (suc rounds) charge s v j e found =
      elim (Bool-cases (ltb s.capacity ((s.usage + charge) % 2 ^ 64))) [
        | inr room ↦ rw room (inl found)
        | inl over ↦ elim (Bool-cases (is_empty s.entries)) [
          | inl none_left ↦ rw (over, none_left) (inl found)
          | inr some_left ↦
              let (part, _) = evict_oldest-IsPart s v some_left in
              let (m, least) = evicts s some_left in
              rw (over, some_left)
                (trans s (evict_oldest s) (evict_loop rounds charge (evict_oldest s))
                  (evict_oldest_keeps s m.0 m.1 v least)
                  (evict_loop_keeps rounds charge (evict_oldest s) part.valid)
                  (evict_loop-IsPart rounds charge (evict_oldest s) part.valid) j e found)
        ]
      ]

  -- Another key's entry is either kept by an insertion, or it was used no later than every entry that
  -- is kept: what is evicted is the least recently used.
  pub insert_evicts_oldest :
      (key j : Bytes) (value : V) (charge : ℕ) (s : LruShard V) (e : ShardEntry V)
      → key ≢ j
      → IsShard s
      → find j s.entries ≡ some e
      → (find j (insert key value charge s).0.entries ≡ some e)
        ⊎ ((i : Bytes) (d : ShardEntry V)
            → key ≢ i
            → find i (insert key value charge s).0.entries ≡ some d
            → e.last_access ≤ d.last_access)
  insert_evicts_oldest key j value charge s e other v found = elim (kept) [
    | inl there ↦ inl (skip j other ∙ there)
    | inr older ↦ inr (λ i d apart later. older i d (sym (skip i apart) ∙ later))
  ]
    where
      skip :
          (i : Bytes)
          → key ≢ i
          → find i (insert key value charge s).0.entries ≡ find i (room_for key charge s).entries
      skip i apart = unfold insert find in rw (bytes_eq_ne key i apart) refl

      kept :
          (find j (room_for key charge s).entries ≡ some e)
          ⊎ NotBefore e.last_access (room_for key charge s).entries
      kept =
          unfold make_room in
          evict_loop_keeps (length (erase key s).entries) charge (erase key s)
            (erase-IsPart key s v).valid j e (find-erase_other key j s other ∙ found)
