-- ===== src/Cache/Entries.antt =====
-- The hash map of a shard in src/cache/cache.rs: what its operations do to a lookup and to the charges.
use pulsearc_db.Base.{
  ℕ, ◌+◌, Bool, Bytes, List, [], ◌∷◌, none, some, ◌≡◌, ◌≢◌, refl, arith, inl, inr, Bool-cases,
  length, ◌≤◌,
}
use pulsearc_db.Base.Equal.{bytes_eq, bytes_eq→eq}
use pulsearc_db.Cache.{ShardEntry, find, remove, touch, charges, retain}

module _ {ℓ} {V : Type ℓ} where
  -- No key twice.
  abbrev pub Distinct : List (Bytes × ShardEntry V) → Type ℓ
  Distinct [] = Unit {ℓ}
  Distinct ((k, e) ∷ es) = (find k es ≡ none) × Distinct es

  pub find-remove_other :
      (k j : Bytes) (es : List (Bytes × ShardEntry V)) → k ≢ j → find j (remove k es) ≡ find j es
  unfolding find remove
  find-remove_other k j [] h = refl
  find-remove_other k j ((i, e) ∷ es) h =
      ground (arith, bytes_eq→eq i k, bytes_eq→eq i j, find-remove_other k j es h)

  pub find-remove-none :
      (k j : Bytes) (es : List (Bytes × ShardEntry V))
      → find j es ≡ none
      → find j (remove k es) ≡ none
  unfolding find remove
  find-remove-none k j [] h = refl
  find-remove-none k j ((i, e) ∷ es) h = ground (arith, find-remove-none k j es)

  pub find-remove_self :
      (k : Bytes) (es : List (Bytes × ShardEntry V)) → Distinct es → find k (remove k es) ≡ none
  unfolding find remove
  find-remove_self k [] d = refl
  find-remove_self k ((i, e) ∷ es) d = ground (arith, bytes_eq→eq i k, find-remove_self k es)

  pub remove-Distinct :
      (k : Bytes) (es : List (Bytes × ShardEntry V)) → Distinct es → Distinct (remove k es)
  unfolding remove
  remove-Distinct k [] d = tt
  remove-Distinct k ((i, e) ∷ es) d = elim (Bool-cases (bytes_eq i k)) [
    | inl same ↦ rw same d.1
    | inr other ↦ rw other (find-remove-none k i es d.0, remove-Distinct k es d.1)
  ]

  pub charges-remove :
      (k : Bytes) (es : List (Bytes × ShardEntry V)) (e : ShardEntry V)
      → find k es ≡ some e
      → charges (remove k es) + e.arc.charge ≡ charges es
  unfolding find remove charges
  charges-remove k [] e h = cc
  charges-remove k ((i, d) ∷ es) e h = ground (arith, charges-remove k es e)

  pub length-remove :
      (k : Bytes) (es : List (Bytes × ShardEntry V)) (e : ShardEntry V)
      → find k es ≡ some e
      → length (remove k es) + 1 ≡ length es
  unfolding find remove
  length-remove k [] e h = cc
  length-remove k ((i, d) ∷ es) e h = ground (arith, length-remove k es e)

  -- A touched entry keeps its value and its charge.
  pub charges-touch :
      (k : Bytes) (now : ℕ) (es : List (Bytes × ShardEntry V))
      → charges (touch k now es) ≡ charges es
  unfolding touch charges
  charges-touch k now [] = refl
  charges-touch k now ((i, e) ∷ es) = ground (arith, charges-touch k now es)

  pub find-touch-none :
      (k j : Bytes) (now : ℕ) (es : List (Bytes × ShardEntry V))
      → find j es ≡ none
      → find j (touch k now es) ≡ none
  unfolding find touch
  find-touch-none k j now [] h = refl
  find-touch-none k j now ((i, e) ∷ es) h = ground (arith, find-touch-none k j now es)

  pub touch-Distinct :
      (k : Bytes) (now : ℕ) (es : List (Bytes × ShardEntry V))
      → Distinct es
      → Distinct (touch k now es)
  unfolding touch
  touch-Distinct k now [] d = tt
  touch-Distinct k now ((i, e) ∷ es) d = elim (Bool-cases (bytes_eq i k)) [
    | inl same ↦ rw same d
    | inr other ↦ rw other (find-touch-none k i now es d.0, touch-Distinct k now es d.1)
  ]

  pub find-touch_self :
      (k : Bytes) (now : ℕ) (es : List (Bytes × ShardEntry V)) (e : ShardEntry V)
      → find k es ≡ some e
      → find k (touch k now es) ≡ some (record { arc = e.arc; last_access = now })
  unfolding find touch
  find-touch_self k now [] e h = cc
  find-touch_self k now ((i, d) ∷ es) e h = ground (arith, find-touch_self k now es e)

  pub find-touch_other :
      (k j : Bytes) (now : ℕ) (es : List (Bytes × ShardEntry V))
      → k ≢ j
      → find j (touch k now es) ≡ find j es
  unfolding find touch
  find-touch_other k j now [] h = refl
  find-touch_other k j now ((i, e) ∷ es) h =
      ground (arith, bytes_eq→eq i k, bytes_eq→eq i j, find-touch_other k j now es h)

  pub find-retain-none :
      (held : Bytes → Bool) (j : Bytes) (es : List (Bytes × ShardEntry V))
      → find j es ≡ none
      → find j (retain held es) ≡ none
  unfolding find retain
  find-retain-none held j [] h = refl
  find-retain-none held j ((i, e) ∷ es) h = ground (arith, find-retain-none held j es)

  pub retain-Distinct :
      (held : Bytes → Bool) (es : List (Bytes × ShardEntry V))
      → Distinct es
      → Distinct (retain held es)
  unfolding retain
  retain-Distinct held [] d = tt
  retain-Distinct held ((i, e) ∷ es) d = elim (Bool-cases (held i)) [
    | inl kept ↦ rw kept (find-retain-none held i es d.0, retain-Distinct held es d.1)
    | inr gone ↦ rw gone (retain-Distinct held es d.1)
  ]

  pub charges-retain-le :
      (held : Bytes → Bool) (es : List (Bytes × ShardEntry V))
      → charges (retain held es) ≤ charges es
  unfolding retain charges
  charges-retain-le held [] = omega arith
  charges-retain-le held ((i, e) ∷ es) = ground (arith, charges-retain-le held es)

  pub charges_cons :
      (k : Bytes) (e : ShardEntry V) (es : List (Bytes × ShardEntry V))
      → charges ((k, e) ∷ es) ≡ e.arc.charge + charges es
  unfolding charges
  charges_cons k e es = refl
