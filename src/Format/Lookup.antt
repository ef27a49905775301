-- ===== src/Format/Lookup.antt =====
-- Lookup keys: the parts that the memtable and the tables take from one buffer.
use pulsearc_db.Base.{
  ℕ, ◌+◌, Bytes, some, ◌≡◌, length, ◌++◌, [], append_assoc, drop, ◌%◌, take, ◌^◌, ◌-◌,
}
use pulsearc_db.Base.Slices.{drop-append_length}
use pulsearc_db.Coding.{put_varint32, put_fixed64, put_length_prefixed_slice, to_le_bytes}
use pulsearc_db.Format.{
  value_type_for_seek, lookup_key, LookupKey, memtable_key, internal_key, lookup_user_key,
}
use pulsearc_db.Format.Keys.{
  IsSequence, key_bytes, tag_of, length-key_bytes, take-key_bytes, pack_sequence_and_type_lem,
}

-- The three views of a buffer that starts with the prefix `p`.
module _ (p u : Bytes) (tag : ℕ) where
  whole : (p ++ u) ++ to_le_bytes 8 tag ≡ p ++ key_bytes u tag
  unfolding key_bytes
  whole = append_assoc p u (to_le_bytes 8 tag)

  behind : drop (length p) ((p ++ u) ++ to_le_bytes 8 tag) ≡ key_bytes u tag
  behind = rw whole (drop-append_length p (key_bytes u tag))

  between :
      drop
        (length p)
        (take (length ((p ++ u) ++ to_le_bytes 8 tag) - 8) ((p ++ u) ++ to_le_bytes 8 tag))
      ≡ u
  unfolding key_bytes
  between = rw (take-key_bytes (p ++ u) tag) (drop-append_length p u)

-- For a sequence number of 56 bits the constructor does not panic; the lookup key then holds, in one
-- buffer, the length-prefixed internal key that the memtable searches, the internal key that the
-- tables search, and the user key.
pub lookup_key_lem :
    (u : Bytes) (s : ℕ)
    → IsSequence s
    → (k : LookupKey) × (lookup_key u s ≡ some k)
      × (memtable_key k ≡ put_length_prefixed_slice [] (key_bytes u (tag_of s value_type_for_seek)))
      × (internal_key k ≡ key_bytes u (tag_of s value_type_for_seek))
      × (lookup_user_key k ≡ u)
unfolding lookup_key memtable_key internal_key lookup_user_key put_length_prefixed_slice put_fixed64
lookup_key_lem u s h =
    let tag = tag_of s value_type_for_seek in
    let prefix = put_varint32 [] ((length u + 8) % 2 ^ 32) in
    (
      record { rep = (prefix ++ u) ++ to_le_bytes 8 tag; kstart = length prefix },
      rw (pack_sequence_and_type_lem s value_type_for_seek h),
      rw (length-key_bytes u tag) (whole prefix u tag),
      behind prefix u tag,
      between prefix u tag,
    )
