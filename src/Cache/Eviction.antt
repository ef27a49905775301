-- ===== src/Cache/Eviction.antt =====
-- src/cache/cache.rs: the loop of `insert` that makes room.
use pulsearc_db.Base.{
  ℕ, zero, suc, ◌+◌, ◌%◌, ◌^◌, ◌≤◌, ◌<◌, true, Bytes, List, [], ◌∷◌, ◌≡◌, refl, arith, inl, inr,
  ◌⊎◌, Bool-cases, length, ltb, ltb→le,
}
use pulsearc_db.Cache.{ShardEntry, LruShard, evict_oldest, evict_loop, make_room, is_empty}
use pulsearc_db.Cache.Shard.{IsShard, IsPart, IsPart-refl, IsPart-trans, evict_oldest-IsPart}

module _ {ℓ} {V : Type ℓ} where
  empty_entries : (es : List (Bytes × ShardEntry V)) → is_empty es ≡ true → es ≡ []
  unfolding is_empty
  empty_entries [] h = refl
  empty_entries (e ∷ es) h = cc

  no_entries : (es : List (Bytes × ShardEntry V)) → length es ≤ 0 → es ≡ []
  no_entries [] h = refl
  no_entries (e ∷ es) h = absurd (omega arith)

  -- There is room for the charge, or nothing is left to evict.
  abbrev pub HasRoom : ℕ → LruShard V → Type ℓ
  HasRoom charge s = (s.usage + charge ≤ s.capacity) ⊎ (s.entries ≡ [])

  evict_loop_lem :
      (rounds charge : ℕ) (s : LruShard V)
      → IsShard s
      → length s.entries ≤ rounds
      → s.usage + charge < 2 ^ 64
      → IsPart s (evict_loop rounds charge s) × HasRoom charge (evict_loop rounds charge s)
  unfolding evict_loop
  evict_loop_lem zero charge s v enough small = (IsPart-refl s v, inr (no_entries s.entries enough))
  evict_loop_lem (suc rounds) charge s v enough small =
      elim (Bool-cases (ltb s.capacity ((s.usage + charge) % 2 ^ 64))) [
        | inr room ↦ rw room (IsPart-refl s v, inl (omega (arith, ltb→le _ _ room)))
        | inl over ↦ elim (Bool-cases (is_empty s.entries)) [
          | inl none_left ↦
              rw (over, none_left) (IsPart-refl s v, inr (empty_entries s.entries none_left))
          | inr some_left ↦
              let (part, fewer) = evict_oldest-IsPart s v some_left in
              let (rest, room) =
                evict_loop_lem rounds charge (evict_oldest s) part.valid (omega arith)
                  (omega (arith, part.usage)) in
              rw (over, some_left) (IsPart-trans s _ _ part rest, room)
        ]
      ]

  -- Whatever the number of rounds, only entries go.
  pub evict_loop-IsPart :
      (rounds charge : ℕ) (s : LruShard V) → IsShard s → IsPart s (evict_loop rounds charge s)
  unfolding evict_loop
  evict_loop-IsPart zero charge s v = IsPart-refl s v
  evict_loop-IsPart (suc rounds) charge s v =
      elim (Bool-cases (ltb s.capacity ((s.usage + charge) % 2 ^ 64))) [
        | inr room ↦ rw room (IsPart-refl s v)
        | inl over ↦ elim (Bool-cases (is_empty s.entries)) [
          | inl none_left ↦ rw (over, none_left) (IsPart-refl s v)
          | inr some_left ↦
              let (part, _) = evict_oldest-IsPart s v some_left in
              rw (over, some_left)
                (IsPart-trans s _ _ part
                  (evict_loop-IsPart rounds charge (evict_oldest s) part.valid))
        ]
      ]

  -- The rounds given are enough: the loop ends with room, or with nothing left.
  pub make_room_lem :
      (charge : ℕ) (s : LruShard V)
      → IsShard s
      → s.usage + charge < 2 ^ 64
      → IsPart s (make_room charge s) × HasRoom charge (make_room charge s)
  unfolding make_room
  make_room_lem charge s v small = evict_loop_lem (length s.entries) charge s v (omega arith) small
