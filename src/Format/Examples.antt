-- ===== src/Format/Examples.antt =====
-- src/format/ on one concrete key.
use Prim.Native.Nat.{Ordering}
use pulsearc_db.Base.{Bytes, [], ◌∷◌, ◌++◌, some, ◌≡◌, refl, arith}
use pulsearc_db.Coding.{decode_fixed64, from_le_bytes, put_length_prefixed_slice}
use pulsearc_db.Comparator.{bytewise, compare_bytes}
use pulsearc_db.Comparator.Order.{bytewise-IsTotalOrder}
use pulsearc_db.Format.{
  deletion, value, value_type_for_seek, ParsedInternalKey, type_tag, value_type_from_tag,
  append_internal_key, parse_internal_key, internal_compare, LookupKey, lookup_key, memtable_key,
  internal_key, lookup_user_key,
}
use pulsearc_db.Format.Keys.{key_bytes, tag_of, parse-append_internal_key}
use pulsearc_db.Format.KeyOrder.{
  encoded, key_order, internal_compare-encoded, internal_compare_trans,
}
use pulsearc_db.Format.Lookup.{lookup_key_lem}

-- Three versions of the key `k`.
abbrev older : ParsedInternalKey
older = record { user_key = 107 ∷ []; sequence = 5; value_type = value }

abbrev newer : ParsedInternalKey
newer = record { user_key = 107 ∷ []; sequence = 7; value_type = value }

abbrev newest : ParsedInternalKey
newest = record { user_key = 107 ∷ []; sequence = 9; value_type = deletion }

-- The newer version comes first.
newer_first : internal_compare bytewise (encoded newer) (encoded older) ≡ some Ordering.lt
unfolding key_order compare_bytes
newer_first = internal_compare-encoded bytewise newer older (omega arith) (omega arith)

newest_first : internal_compare bytewise (encoded newest) (encoded newer) ≡ some Ordering.lt
unfolding key_order compare_bytes
newest_first = internal_compare-encoded bytewise newest newer (omega arith) (omega arith)

same_key : internal_compare bytewise (encoded newer) (encoded newer) ≡ some Ordering.eq
unfolding key_order compare_bytes type_tag
same_key = internal_compare-encoded bytewise newer newer (omega arith) (omega arith)

internal_compare-encoded_example :
    internal_compare bytewise (encoded newer) (encoded older)
    ≡ some (key_order bytewise newer older)
internal_compare-encoded_example =
    internal_compare-encoded bytewise newer older (omega arith) (omega arith)

internal_compare_trans_example :
    internal_compare bytewise (encoded newest) (encoded older) ≡ some Ordering.lt
internal_compare_trans_example =
    internal_compare_trans bytewise newest newer older bytewise-IsTotalOrder (omega arith)
      (omega arith) (omega arith) newest_first newer_first

parse-append_internal_key_example :
    (bytes : Bytes) × (append_internal_key (1 ∷ []) older ≡ some (1 ∷ [] ++ bytes))
    × (parse_internal_key bytes ≡ some older)
parse-append_internal_key_example = parse-append_internal_key (1 ∷ []) older (omega arith)

older_parsed : parse_internal_key (107 ∷ 1 ∷ 5 ∷ 0 ∷ 0 ∷ 0 ∷ 0 ∷ 0 ∷ 0 ∷ []) ≡ some older
unfolding parse_internal_key decode_fixed64 value_type_from_tag from_le_bytes
older_parsed = refl

lookup_key_example :
    (k : LookupKey) × (lookup_key (107 ∷ []) 5 ≡ some k)
    × (memtable_key k
        ≡ put_length_prefixed_slice [] (key_bytes (107 ∷ []) (tag_of 5 value_type_for_seek)))
    × (internal_key k ≡ key_bytes (107 ∷ []) (tag_of 5 value_type_for_seek))
    × (lookup_user_key k ≡ 107 ∷ [])
lookup_key_example = lookup_key_lem (107 ∷ []) 5 (omega arith)
