-- ===== src/VersionSet/VersionEdit/Fields/Codec.antt =====
-- Each field of an edit is read back from its bytes.
use pulsearc_db.Base.{ℕ, Bytes, [], ◌∷◌, ◌++◌, ◌<◌, ◌≡◌, arith, append_assoc, lt→ltb, ◌^◌}
use pulsearc_db.Result.{ok}
use pulsearc_db.Coding.{put_varint32, put_varint64, put_length_prefixed_slice}
use pulsearc_db.Coding.Varint.{get_varint32-put_varint32, get_varint64-put_varint64, put_last}
use pulsearc_db.Coding.Prefixed.{get_length_prefixed_slice-put}
use pulsearc_db.Format.{num_levels}
use pulsearc_db.VersionSet.FileMetaData.{encode_file}
use pulsearc_db.VersionSet.FileMetaData.RoundTrip.{decode_file-encode_file}
use pulsearc_db.VersionSet.VersionEdit.{
  VersionEdit, get_name, get_number, get_seq, get_level, get_compact_pointer, get_deleted_file,
  get_new_file, decode_tagged, decode_field,
}
use pulsearc_db.VersionSet.VersionEdit.Fields.{
  Field, comparator_field, log_field, prev_log_field, next_file_field, sequence_field,
  pointer_field, deleted_field, new_field, IsField, apply, tag_of, value_bytes, field_bytes,
}

get_number-put :
    (n : ℕ) (rest : Bytes) → n < 2 ^ 64 → get_number (put_varint64 [] n ++ rest) ≡ ok (n, rest)
unfolding get_number
get_number-put n rest h = rw (get_varint64-put_varint64 n rest h)

get_level-put :
    (level : ℕ) (rest : Bytes)
    → level < num_levels
    → get_level (put_varint32 [] level ++ rest) ≡ ok (level, rest)
unfolding get_level
get_level-put level rest h =
    rw (get_varint32-put_varint32 level rest (omega arith), lt→ltb level 7 h)

decode_tagged_lem :
    (f : Field) (rest : Bytes) (edit : VersionEdit)
    → IsField f
    → decode_tagged (tag_of f) (value_bytes f ++ rest) edit ≡ ok (apply edit f, rest)
unfolding decode_tagged tag_of value_bytes apply IsField get_name get_seq get_compact_pointer
    get_deleted_file get_new_file
decode_tagged_lem (comparator_field name) rest edit h =
    rw (get_length_prefixed_slice-put name rest h)
decode_tagged_lem (log_field n) rest edit h = rw (get_number-put n rest h)
decode_tagged_lem (prev_log_field n) rest edit h = rw (get_number-put n rest h)
decode_tagged_lem (next_file_field n) rest edit h = rw (get_number-put n rest h)
decode_tagged_lem (sequence_field n) rest edit h = rw (get_varint64-put_varint64 n rest h)
decode_tagged_lem (pointer_field item) rest edit (hl, hk) =
    let key_bytes = put_length_prefixed_slice [] item.key in
    rw (
      append_assoc (put_varint32 [] item.level) key_bytes rest,
      get_level-put item.level (key_bytes ++ rest) hl,
      get_length_prefixed_slice-put item.key rest hk,
    )
decode_tagged_lem (deleted_field item) rest edit (hl, hn) = rw (
  append_assoc (put_varint32 [] item.level) (put_varint64 [] item.number) rest,
  get_level-put item.level (put_varint64 [] item.number ++ rest) hl,
  get_number-put item.number rest hn,
)
decode_tagged_lem (new_field item) rest edit (hl, hm) = rw (
  append_assoc (put_varint32 [] item.level) (encode_file item.meta []) rest,
  get_level-put item.level (encode_file item.meta [] ++ rest) hl,
  decode_file-encode_file item.meta rest hm,
)

tag-small : (f : Field) → tag_of f < 10
unfolding tag_of
tag-small (comparator_field name) = omega arith
tag-small (log_field n) = omega arith
tag-small (prev_log_field n) = omega arith
tag-small (next_file_field n) = omega arith
tag-small (sequence_field n) = omega arith
tag-small (pointer_field item) = omega arith
tag-small (deleted_field item) = omega arith
tag-small (new_field item) = omega arith

-- A field whose values fit is read from its bytes, whatever was read before it.
pub decode_field_lem :
    (f : Field) (rest : Bytes) (edit : VersionEdit)
    → IsField f
    → decode_field (field_bytes f ++ rest) edit ≡ ok (apply edit f, rest)
unfolding decode_field field_bytes
decode_field_lem f rest edit h = rw (
  append_assoc (put_varint32 [] (tag_of f)) (value_bytes f) rest,
  get_varint32-put_varint32 (tag_of f) (value_bytes f ++ rest) (omega (arith, tag-small f)),
  decode_tagged_lem f rest edit h,
)

-- The tag takes one byte.
pub field_bytes_starts : (f : Field) → field_bytes f ≡ tag_of f ∷ value_bytes f
unfolding field_bytes put_varint32 put_varint64
field_bytes_starts f = rw (put_last (tag_of f) (tag_of f) (omega (arith, tag-small f)))
