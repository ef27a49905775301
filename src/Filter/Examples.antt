-- ===== src/Filter/Examples.antt =====
-- src/filter/filter.rs on two keys.
use pulsearc_db.Base.{Bytes, [], ◌∷◌, ◌++◌, List, All, some, true, ◌≡◌, refl, arith, ◌^◌, ◌-◌, none}
use pulsearc_db.Filter.{
  new, create_filter, key_may_match, create_internal_filter, internal_key_may_match, probe_count,
  array_bytes, grow, add_keys, add_probes, remainder,
}
use pulsearc_db.Filter.Bloom.{create_filter-matches, create_internal_filter-matches}

abbrev two_keys : List Bytes
two_keys = (104 ∷ 101 ∷ 108 ∷ 108 ∷ 111 ∷ []) ∷ (119 ∷ 111 ∷ []) ∷ []

default_probes : probe_count 10 ≡ 6
unfolding probe_count
default_probes = refl

create_filter-matches_example :
    (filter : Bytes) × (create_filter (new 10) two_keys (1 ∷ []) ≡ some (1 ∷ [] ++ filter))
    × All (λ key. key_may_match key filter ≡ some true) two_keys
create_filter-matches_example =
    create_filter-matches 10 two_keys (1 ∷ []) (omega arith, omega arith)

create_internal_filter-matches_example :
    (filter : Bytes) × (create_internal_filter (new 10) two_keys [] ≡ some ([] ++ filter))
    × All (λ key. internal_key_may_match key filter ≡ some true) two_keys
create_internal_filter-matches_example =
    create_internal_filter-matches 10 two_keys [] (omega arith, omega arith)

-- With the most bits per key the sum wraps, no byte is left for the array, and the first probe panics.
too_many_bits : create_filter (new (2 ^ 64 - 1)) ((1 ∷ []) ∷ []) [] ≡ none
unfolding create_filter array_bytes grow add_keys add_probes remainder new probe_count
too_many_bits = refl
