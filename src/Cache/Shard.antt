-- ===== src/Cache/Shard.antt =====
-- src/cache/cache.rs: the accounts of a shard, through eviction and through every operation.
use pulsearc_db.Base.{
  ◌+◌, ◌^◌, ◌≤◌, ◌<◌, false, Bytes, List, [], ◌∷◌, none, some, ◌≡◌, ◌≢◌, refl, sym, ◌∙◌, arith, inl,
  inr, Bool-cases, Option-cases, length, leb, ◌-◌,
}
use pulsearc_db.Base.Equal.{bytes_ne, bytes_eq, bytes_eq→eq, bytes_eq_self}
use pulsearc_db.Cache.{
  ShardEntry, LruShard, find, remove, charges, erase, oldest, evict_oldest, is_empty,
}
use pulsearc_db.Cache.Entries.{
  Distinct, find-remove_other, find-remove_self, remove-Distinct, charges-remove, length-remove,
}

-- The usage is the sum of the charges, which does not overflow, and no key is held twice.
pub record IsShard {ℓ} {V : Type ℓ} (s : LruShard V) : Type ℓ where
  pub counted : s.usage ≡ charges s.entries
  pub distinct : Distinct s.entries
  pub fits : s.usage < 2 ^ 64

module _ {ℓ} {V : Type ℓ} where
  -- What an eviction leaves: an older state of the shard, less some entries.
  pub record IsPart (s r : LruShard V) : Type ℓ where
    pub valid : IsShard r
    pub capacity : r.capacity ≡ s.capacity
    pub counter : r.counter ≡ s.counter
    pub usage : r.usage ≤ s.usage
    pub shorter : length r.entries ≤ length s.entries
    pub held :
        (j : Bytes) (e : ShardEntry V) → find j r.entries ≡ some e → find j s.entries ≡ some e

  pub IsPart-refl : (s : LruShard V) → IsShard s → IsPart s s
  IsPart-refl s v = record {
    valid = v;
    capacity = refl;
    counter = refl;
    usage = omega arith;
    shorter = omega arith;
    held = λ j e h. h;
  }

  pub IsPart-trans : (s r t : LruShard V) → IsPart s r → IsPart r t → IsPart s t
  IsPart-trans s r t p q = record {
    valid = q.valid;
    capacity = q.capacity ∙ p.capacity;
    counter = q.counter ∙ p.counter;
    usage = omega arith;
    shorter = omega arith;
    held = λ j e h. p.held j e (q.held j e h);
  }

  found_of_removed :
      (k j : Bytes) (es : List (Bytes × ShardEntry V)) (e : ShardEntry V)
      → Distinct es
      → find j (remove k es) ≡ some e
      → find j es ≡ some e
  found_of_removed k j es e d h = elim (Bool-cases (bytes_eq k j)) [
    | inl same ↦
        let here : k ≡ j = bytes_eq→eq k j same in let gone = find-remove_self k es d in absurd (cc)
    | inr other ↦ sym (find-remove_other k j es (bytes_ne k j other)) ∙ h
  ]

  pub erase_absent : (k : Bytes) (s : LruShard V) → find k s.entries ≡ none → erase k s ≡ s
  unfolding erase
  erase_absent k s absent = ground arith

  pub erase_present :
      (k : Bytes) (s : LruShard V) (old : ShardEntry V)
      → find k s.entries ≡ some old
      → erase k s ≡ record s { entries = remove k s.entries; usage = s.usage - old.arc.charge }
  unfolding erase
  erase_present k s old found = ground arith

  pub find-erase_self : (k : Bytes) (s : LruShard V) → IsShard s → find k (erase k s).entries ≡ none
  find-erase_self k s v = elim (Option-cases (find k s.entries)) [
    | inl absent ↦ rw (erase_absent k s absent) absent
    | inr (e, found) ↦ rw (erase_present k s e found) (find-remove_self k s.entries v.distinct)
  ]

  pub find-erase_other :
      (k j : Bytes) (s : LruShard V) → k ≢ j → find j (erase k s).entries ≡ find j s.entries
  find-erase_other k j s h = elim (Option-cases (find k s.entries)) [
    | inl absent ↦ rw (erase_absent k s absent) refl
    | inr (e, found) ↦ rw (erase_present k s e found) (find-remove_other k j s.entries h)
  ]

  erase_found :
      (k : Bytes) (s : LruShard V) (e : ShardEntry V)
      → IsShard s
      → find k s.entries ≡ some e
      → IsPart s (erase k s) × (length (erase k s).entries + 1 ≡ length s.entries)
  erase_found k s e v found =
      let sums = charges-remove k s.entries e found in
      let fewer = length-remove k s.entries e found in
      rw (erase_present k s e found) (
        record {
          valid = record {
            counted = omega (arith, v.counted);
            distinct = remove-Distinct k s.entries v.distinct;
            fits = omega (arith, v.fits);
          };
          capacity = refl;
          counter = refl;
          usage = omega arith;
          shorter = omega arith;
          held = λ j d. found_of_removed k j s.entries d v.distinct;
        },
        fewer,
      )

  pub erase-IsPart : (k : Bytes) (s : LruShard V) → IsShard s → IsPart s (erase k s)
  erase-IsPart k s v = elim (Option-cases (find k s.entries)) [
    | inl absent ↦ rw (erase_absent k s absent) (IsPart-refl s v)
    | inr (e, found) ↦ (erase_found k s e v found).0
  ]

  pub oldest-find :
      (es : List (Bytes × ShardEntry V)) (k : Bytes) (e : ShardEntry V)
      → Distinct es
      → oldest es ≡ some (k, e)
      → find k es ≡ some e
  unfolding oldest find
  oldest-find [] k e d h = cc
  oldest-find ((i, c) ∷ es) k e d h = elim (Option-cases (oldest es)) [
    | inl last ↦ ground (arith, bytes_eq_self i)
    | inr ((j, m), more) ↦
        let there = oldest-find es j m d.1 more in ground (arith, bytes_eq_self i, bytes_eq→eq i j)
  ]

  pub oldest-cons :
      (k : Bytes) (e : ShardEntry V) (es : List (Bytes × ShardEntry V))
      → (m : Bytes × ShardEntry V) × (oldest ((k, e) ∷ es) ≡ some m)
  unfolding oldest
  oldest-cons k e es = elim (Option-cases (oldest es)) [
    | inl last ↦ ((k, e), rw last refl)
    | inr ((j, d), more) ↦ pick j d more
  ]
    where
      pick :
          (j : Bytes) (d : ShardEntry V)
          → oldest es ≡ some (j, d)
          → (m : Bytes × ShardEntry V) × (oldest ((k, e) ∷ es) ≡ some m)
      pick j d more = elim (Bool-cases (leb e.last_access d.last_access)) [
        | inl older ↦ ((k, e), rw (more, older) refl)
        | inr newer ↦ ((j, d), rw (more, newer) refl)
      ]

  pub evict_oldest-some :
      (s : LruShard V) (k : Bytes) (e : ShardEntry V)
      → oldest s.entries ≡ some (k, e)
      → evict_oldest s ≡ erase k s
  unfolding evict_oldest
  evict_oldest-some s k e least = ground arith

  -- A round of the loop drops an entry, if there is one.
  pub evict_oldest-IsPart :
      (s : LruShard V)
      → IsShard s
      → is_empty s.entries ≡ false
      → IsPart s (evict_oldest s) × (length (evict_oldest s).entries + 1 ≡ length s.entries)
  evict_oldest-IsPart s v some_left = elim (Option-cases (oldest s.entries)) [
    | inl none_left ↦ absurd (impossible s.entries some_left none_left)
    | inr ((k, e), least) ↦
        rw (evict_oldest-some s k e least)
          (erase_found k s e v (oldest-find s.entries k e v.distinct least))
  ]
    where
      impossible : (es : List (Bytes × ShardEntry V)) → is_empty es ≡ false → oldest es ≡ none → ⊥
      impossible [] p q = unfold is_empty in cc
      impossible ((k, e) ∷ es) p q = let (m, found) = oldest-cons k e es in cc
