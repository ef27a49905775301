-- ===== src/Block/Entry.antt =====
-- An entry is read back from its bytes.
use pulsearc_db.Base.{
  ℕ, ◌<◌, ◌^◌, Bytes, [], ◌++◌, length, some, ◌≡◌, arith, append_assoc, length-append, le→ltb,
}
use pulsearc_db.Base.Slices.{take-append_length, drop-append_length}
use pulsearc_db.Result.{ok}
use pulsearc_db.Coding.{put_varint32}
use pulsearc_db.Coding.Varint.{put_varint32-append, get_varint32-put_varint32}
use pulsearc_db.Block.{BlockEntry, encode_entry, decode_entry, split_bytes}

-- The two lengths are those of the byte strings, and the three numbers fit 32 bits.
pub record IsEntry (entry : BlockEntry) : Type 0 where
  pub shared_fits : entry.shared < 2 ^ 32
  pub unshared_fits : entry.unshared < 2 ^ 32
  pub value_len_fits : entry.value_len < 2 ^ 32
  pub key_delta_length : entry.unshared ≡ length entry.key_delta
  pub value_length : entry.value_len ≡ length entry.value

split_bytes-append :
    (n : ℕ) (front back : Bytes)
    → n ≡ length front
    → split_bytes n (front ++ back) ≡ some (front, back)
unfolding split_bytes
split_bytes-append n front back e = rw (
  e,
  le→ltb (length (front ++ back)) (length front) (omega (arith, length-append front back)),
  take-append_length front back,
  drop-append_length front back,
)

entry_bytes : BlockEntry → Bytes → Bytes
entry_bytes entry rest =
    put_varint32 [] entry.shared
    ++ (put_varint32 [] entry.unshared
        ++ (put_varint32 [] entry.value_len ++ (entry.key_delta ++ (entry.value ++ rest))))

encode_entry_lem :
    (entry : BlockEntry) (rest : Bytes) → encode_entry entry [] ++ rest ≡ entry_bytes entry rest
unfolding encode_entry entry_bytes
encode_entry_lem entry rest =
    let a = put_varint32 [] entry.shared in
    let b = put_varint32 [] entry.unshared in
    let c = put_varint32 [] entry.value_len in
    rw
      (
        put_varint32-append (put_varint32 a entry.unshared) entry.value_len,
        put_varint32-append a entry.unshared,
      )
      (simp append_assoc)

-- An entry whose lengths are those of its byte strings, with numbers that fit 32 bits, is decoded from
-- its encoding, and what follows is left.
pub decode_entry-encode_entry :
    (entry : BlockEntry) (rest : Bytes)
    → IsEntry entry
    → decode_entry (encode_entry entry [] ++ rest) ≡ ok (entry, rest)
unfolding decode_entry entry_bytes
decode_entry-encode_entry entry rest h =
    let tail = entry.value ++ rest in
    let body = entry.key_delta ++ tail in
    let c = put_varint32 [] entry.value_len in
    let b = put_varint32 [] entry.unshared in
    rw (
      encode_entry_lem entry rest,
      get_varint32-put_varint32 entry.shared (b ++ (c ++ body)) h.shared_fits,
      get_varint32-put_varint32 entry.unshared (c ++ body) h.unshared_fits,
      get_varint32-put_varint32 entry.value_len body h.value_len_fits,
      split_bytes-append entry.unshared entry.key_delta tail h.key_delta_length,
      split_bytes-append entry.value_len entry.value rest h.value_length,
    )
