-- ===== src/VersionSet/VersionEdit/Fields/Writing.antt =====
-- The writer of an edit appends the bytes of the edit's fields.
use pulsearc_db.Base.{
  ℕ, Bytes, [], ◌∷◌, ◌++◌, List, ◌≡◌, refl, ap, sym, ◌∙◌, append_assoc, append-nil, Option, none,
  some, map,
}
use pulsearc_db.Coding.{put_varint32, put_varint64, put_length_prefixed_slice}
use pulsearc_db.Coding.Varint.{put_varint32-append, put_varint64-append}
use pulsearc_db.Coding.Prefixed.{put_length_prefixed_slice-append}
use pulsearc_db.VersionSet.FileMetaData.{encode_file}
use pulsearc_db.VersionSet.FileMetaData.RoundTrip.{encode_file-append}
use pulsearc_db.VersionSet.VersionEdit.{
  CompactPointer, DeletedFile, NewFile, VersionEdit, put_name, put_number, put_compact_pointers,
  put_deleted_files, put_new_files, encode_edit,
}
use pulsearc_db.VersionSet.VersionEdit.Fields.{
  Field, comparator_field, log_field, prev_log_field, next_file_field, sequence_field,
  pointer_field, deleted_field, new_field, tag_of, value_bytes, field_bytes, bytes_of, fields,
  option_field,
}

bytes_of-append : (fs gs : List Field) → bytes_of (fs ++ gs) ≡ bytes_of fs ++ bytes_of gs
unfolding bytes_of
bytes_of-append [] gs = refl
bytes_of-append (f ∷ fs) gs =
    rw (bytes_of-append fs gs, append_assoc (field_bytes f) (bytes_of fs) (bytes_of gs))

-- Each part of the writer appends the bytes of its fields.
put_name_lem :
    (name : Option Bytes) (dst : Bytes)
    → put_name name dst ≡ dst ++ bytes_of (option_field comparator_field name)
unfolding put_name option_field bytes_of field_bytes tag_of value_bytes
put_name_lem none dst = sym (append-nil dst)
put_name_lem (some name) dst = rw (
  put_length_prefixed_slice-append (put_varint32 dst 1) name,
  put_varint32-append dst 1,
  append-nil,
  append_assoc dst (put_varint32 [] 1) (put_length_prefixed_slice [] name),
)

put_number_lem :
    (f : ℕ → Field) (tag : ℕ) (number : Option ℕ) (dst : Bytes)
    → ((n : ℕ) → field_bytes (f n) ≡ put_varint32 [] tag ++ put_varint64 [] n)
    → put_number tag number dst ≡ dst ++ bytes_of (option_field f number)
unfolding put_number option_field bytes_of
put_number_lem f tag none dst shape = sym (append-nil dst)
put_number_lem f tag (some n) dst shape = rw (
  put_varint64-append (put_varint32 dst tag) n,
  put_varint32-append dst tag,
  shape n,
  append-nil,
  append_assoc dst (put_varint32 [] tag) (put_varint64 [] n),
)

assoc3 : (dst a b c : Bytes) → ((dst ++ a) ++ b) ++ c ≡ dst ++ (a ++ (b ++ c))
assoc3 dst a b c = append_assoc (dst ++ a) b c ∙ append_assoc dst a (b ++ c)

-- An item of a list, behind the bytes of those before it.
put_pointer :
    (item : CompactPointer) (dst : Bytes)
    → put_length_prefixed_slice (put_varint32 (put_varint32 dst 5) item.level) item.key
      ≡ dst ++ field_bytes (pointer_field item)
unfolding field_bytes tag_of value_bytes
put_pointer item dst =
    rw
      (
        put_length_prefixed_slice-append (put_varint32 (put_varint32 dst 5) item.level) item.key,
        put_varint32-append (put_varint32 dst 5) item.level,
        put_varint32-append dst 5,
      )
      (assoc3 dst (put_varint32 [] 5) (put_varint32 [] item.level)
        (put_length_prefixed_slice [] item.key))

put_deleted :
    (item : DeletedFile) (dst : Bytes)
    → put_varint64 (put_varint32 (put_varint32 dst 6) item.level) item.number
      ≡ dst ++ field_bytes (deleted_field item)
unfolding field_bytes tag_of value_bytes
put_deleted item dst =
    rw
      (
        put_varint64-append (put_varint32 (put_varint32 dst 6) item.level) item.number,
        put_varint32-append (put_varint32 dst 6) item.level,
        put_varint32-append dst 6,
      )
      (assoc3 dst (put_varint32 [] 6) (put_varint32 [] item.level) (put_varint64 [] item.number))

put_new :
    (item : NewFile) (dst : Bytes)
    → encode_file item.meta (put_varint32 (put_varint32 dst 7) item.level)
      ≡ dst ++ field_bytes (new_field item)
unfolding field_bytes tag_of value_bytes
put_new item dst =
    rw
      (
        encode_file-append item.meta (put_varint32 (put_varint32 dst 7) item.level),
        put_varint32-append (put_varint32 dst 7) item.level,
        put_varint32-append dst 7,
      )
      (assoc3 dst (put_varint32 [] 7) (put_varint32 [] item.level) (encode_file item.meta []))

put_compact_pointers_lem :
    (items : List CompactPointer) (dst : Bytes)
    → put_compact_pointers items dst ≡ dst ++ bytes_of (map pointer_field items)
unfolding put_compact_pointers bytes_of
put_compact_pointers_lem [] dst = sym (append-nil dst)
put_compact_pointers_lem (item ∷ items) dst =
    ap (put_compact_pointers items) (put_pointer item dst)
    ∙ put_compact_pointers_lem items (dst ++ field_bytes (pointer_field item))
    ∙ append_assoc dst (field_bytes (pointer_field item)) (bytes_of (map pointer_field items))

put_deleted_files_lem :
    (items : List DeletedFile) (dst : Bytes)
    → put_deleted_files items dst ≡ dst ++ bytes_of (map deleted_field items)
unfolding put_deleted_files bytes_of
put_deleted_files_lem [] dst = sym (append-nil dst)
put_deleted_files_lem (item ∷ items) dst =
    ap (put_deleted_files items) (put_deleted item dst)
    ∙ put_deleted_files_lem items (dst ++ field_bytes (deleted_field item))
    ∙ append_assoc dst (field_bytes (deleted_field item)) (bytes_of (map deleted_field items))

put_new_files_lem :
    (items : List NewFile) (dst : Bytes)
    → put_new_files items dst ≡ dst ++ bytes_of (map new_field items)
unfolding put_new_files bytes_of
put_new_files_lem [] dst = sym (append-nil dst)
put_new_files_lem (item ∷ items) dst =
    ap (put_new_files items) (put_new item dst)
    ∙ put_new_files_lem items (dst ++ field_bytes (new_field item))
    ∙ append_assoc dst (field_bytes (new_field item)) (bytes_of (map new_field items))

-- The writer appends the bytes of the edit's fields.
pub encode_edit-fields :
    (edit : VersionEdit) (dst : Bytes) → encode_edit edit dst ≡ dst ++ bytes_of (fields edit)
unfolding encode_edit fields field_bytes tag_of value_bytes
encode_edit-fields edit dst = simp (
  put_name_lem,
  put_number_lem log_field 2 edit.log_number _ (λ n. refl),
  put_number_lem prev_log_field 9 edit.prev_log_number _ (λ n. refl),
  put_number_lem next_file_field 3 edit.next_file_number _ (λ n. refl),
  put_number_lem sequence_field 4 edit.last_sequence _ (λ n. refl),
  put_compact_pointers_lem,
  put_deleted_files_lem,
  put_new_files_lem,
  bytes_of-append,
  append_assoc,
)
