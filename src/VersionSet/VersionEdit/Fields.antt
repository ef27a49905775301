-- ===== src/VersionSet/VersionEdit/Fields.antt =====
-- An edit as the sequence of the fields in its manifest record.
pub mod Codec
pub mod Writing
pub mod RoundTrip
use pulsearc_db.VersionSet.VersionEdit.{
  CompactPointer, DeletedFile, NewFile, VersionEdit, Bytes, length, some, List, ℕ, Option,
  put_length_prefixed_slice, put_varint32, put_varint64, num_levels, encode_file,
}
use pulsearc_db.VersionSet.FileMetaData.RoundTrip.{IsFile}
use pulsearc_db.Base.{Bytes, length, some, List, ℕ, Option, ◌<◌, ◌∷◌, [], ◌++◌, ◌^◌, map, none}

-- One tag and its value, as the format has them.
pub data Field : Type 0 where
  comparator_field : Bytes → Field
  log_field : ℕ → Field
  prev_log_field : ℕ → Field
  next_file_field : ℕ → Field
  sequence_field : ℕ → Field
  pointer_field : CompactPointer → Field
  deleted_field : DeletedFile → Field
  new_field : NewFile → Field

-- What the fields are worth: numbers in their ranges, levels of the tree, lengths that fit.
unfoldable pub IsField : Field → Type 0
IsField (comparator_field name) = length name < 2 ^ 32
IsField (log_field n) = n < 2 ^ 64
IsField (prev_log_field n) = n < 2 ^ 64
IsField (next_file_field n) = n < 2 ^ 64
IsField (sequence_field n) = n < 2 ^ 64
IsField (pointer_field item) = (item.level < num_levels) × (length item.key < 2 ^ 32)
IsField (deleted_field item) = (item.level < num_levels) × (item.number < 2 ^ 64)
IsField (new_field item) = (item.level < num_levels) × IsFile item.meta

unfoldable pub apply : VersionEdit → Field → VersionEdit
apply edit (comparator_field name) = record edit { comparator = some name }
apply edit (log_field n) = record edit { log_number = some n }
apply edit (prev_log_field n) = record edit { prev_log_number = some n }
apply edit (next_file_field n) = record edit { next_file_number = some n }
apply edit (sequence_field n) = record edit { last_sequence = some n }
apply edit (pointer_field item) = record edit {
  compact_pointers = edit.compact_pointers ++ item ∷ [];
}
apply edit (deleted_field item) = record edit { deleted_files = edit.deleted_files ++ item ∷ [] }
apply edit (new_field item) = record edit { new_files = edit.new_files ++ item ∷ [] }

unfoldable pub apply_all : VersionEdit → List Field → VersionEdit
apply_all edit [] = edit
apply_all edit (f ∷ fs) = apply_all (apply edit f) fs

unfoldable pub AreFields : List Field → Type 0
AreFields [] = Unit
AreFields (f ∷ fs) = IsField f × AreFields fs

unfoldable pub tag_of : Field → ℕ
tag_of (comparator_field name) = 1
tag_of (log_field n) = 2
tag_of (prev_log_field n) = 9
tag_of (next_file_field n) = 3
tag_of (sequence_field n) = 4
tag_of (pointer_field item) = 5
tag_of (deleted_field item) = 6
tag_of (new_field item) = 7

unfoldable pub value_bytes : Field → Bytes
value_bytes (comparator_field name) = put_length_prefixed_slice [] name
value_bytes (log_field n) = put_varint64 [] n
value_bytes (prev_log_field n) = put_varint64 [] n
value_bytes (next_file_field n) = put_varint64 [] n
value_bytes (sequence_field n) = put_varint64 [] n
value_bytes (pointer_field item) =
    put_varint32 [] item.level ++ put_length_prefixed_slice [] item.key
value_bytes (deleted_field item) = put_varint32 [] item.level ++ put_varint64 [] item.number
value_bytes (new_field item) = put_varint32 [] item.level ++ encode_file item.meta []

unfoldable pub field_bytes : Field → Bytes
field_bytes f = put_varint32 [] (tag_of f) ++ value_bytes f

unfoldable pub bytes_of : List Field → Bytes
bytes_of [] = []
bytes_of (f ∷ fs) = field_bytes f ++ bytes_of fs

option_field {ℓ} : {A : Type ℓ} → (A → Field) → Option A → List Field
option_field f none = []
option_field f (some a) = f a ∷ []

-- The fields of an edit, in the order that they are written in.
unfoldable pub fields : VersionEdit → List Field
unfolding option_field
fields edit =
    option_field comparator_field edit.comparator
    ++ (option_field log_field edit.log_number
        ++ (option_field prev_log_field edit.prev_log_number
            ++ (option_field next_file_field edit.next_file_number
                ++ (option_field sequence_field edit.last_sequence
                    ++ (map pointer_field edit.compact_pointers
                        ++ (map deleted_field edit.deleted_files
                            ++ map new_field edit.new_files))))))
