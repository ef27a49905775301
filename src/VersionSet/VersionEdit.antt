-- ===== src/VersionSet/VersionEdit.antt =====
-- src/version_set/version_edit.rs: an edit, and its record in the manifest.
pub mod Fields
use pulsearc_db.Base.{
  ℕ, zero, suc, Bytes, [], ◌∷◌, ◌++◌, length, List, Option, none, some, ltb, ◌==◌, if◌then◌else◌,
}
use pulsearc_db.Status.{corruption, text, numbered}
use pulsearc_db.Result.{Result, ok, err, panicked, ◌>>=◌, ok_or}
use pulsearc_db.Coding.{
  put_varint32, put_varint64, get_varint32, get_varint64, put_length_prefixed_slice,
  get_length_prefixed_slice,
}
use pulsearc_db.Format.{num_levels}
use pulsearc_db.VersionSet.FileMetaData.{FileMetaData, encode_file, decode_file}

pub record CompactPointer : Type 0 where
  pub level : ℕ
  pub key : Bytes

pub record DeletedFile : Type 0 where
  pub level : ℕ
  pub number : ℕ

pub record NewFile : Type 0 where
  pub level : ℕ
  pub meta : FileMetaData

pub record VersionEdit : Type 0 where
  pub comparator : Option Bytes
  pub log_number : Option ℕ
  pub prev_log_number : Option ℕ
  pub next_file_number : Option ℕ
  pub last_sequence : Option ℕ
  pub compact_pointers : List CompactPointer
  pub deleted_files : List DeletedFile
  pub new_files : List NewFile

abbrev pub empty : VersionEdit
empty = record {
  comparator = none;
  log_number = none;
  prev_log_number = none;
  next_file_number = none;
  last_sequence = none;
  compact_pointers = [];
  deleted_files = [];
  new_files = [];
}

-- The tag and the value of a field that the edit may lack.
unfoldable pub put_name : Option Bytes → Bytes → Bytes
put_name none dst = dst
put_name (some name) dst = put_length_prefixed_slice (put_varint32 dst 1) name

unfoldable pub put_number : ℕ → Option ℕ → Bytes → Bytes
put_number tag none dst = dst
put_number tag (some number) dst = put_varint64 (put_varint32 dst tag) number

-- The loops over the lists.
unfoldable pub put_compact_pointers : List CompactPointer → Bytes → Bytes
put_compact_pointers [] dst = dst
put_compact_pointers (item ∷ items) dst =
    put_compact_pointers items
      (put_length_prefixed_slice (put_varint32 (put_varint32 dst 5) item.level) item.key)

unfoldable pub put_deleted_files : List DeletedFile → Bytes → Bytes
put_deleted_files [] dst = dst
put_deleted_files (item ∷ items) dst =
    put_deleted_files items
      (put_varint64 (put_varint32 (put_varint32 dst 6) item.level) item.number)

unfoldable pub put_new_files : List NewFile → Bytes → Bytes
put_new_files [] dst = dst
put_new_files (item ∷ items) dst =
    put_new_files items (encode_file item.meta (put_varint32 (put_varint32 dst 7) item.level))

unfoldable pub encode_edit : VersionEdit → Bytes → Bytes
encode_edit edit dst =
    let dst1 = put_number 2 edit.log_number (put_name edit.comparator dst) in
    let dst2 = put_number 3 edit.next_file_number (put_number 9 edit.prev_log_number dst1) in
    let dst3 = put_compact_pointers edit.compact_pointers (put_number 4 edit.last_sequence dst2) in
    put_new_files edit.new_files (put_deleted_files edit.deleted_files dst3)

unfoldable pub get_name : Bytes → Result (Bytes × Bytes)
get_name input =
    ok_or (get_length_prefixed_slice input) (corruption (text "VersionEdit: missing name"))

unfoldable pub get_number : Bytes → Result (ℕ × Bytes)
get_number input = ok_or (get_varint64 input) (corruption (text "VersionEdit: missing number"))

unfoldable pub get_seq : Bytes → Result (ℕ × Bytes)
get_seq input = ok_or (get_varint64 input) (corruption (text "VersionEdit: missing seq"))

-- A level, which must be one of the tree's.
unfoldable pub get_level : Bytes → Result (ℕ × Bytes)
get_level input = do
  (level, rest) ← ok_or (get_varint32 input) (corruption (text "VersionEdit: missing level"))
  if ltb level num_levels
      then ok (level, rest)
      else err (corruption (text "VersionEdit: level out of range"))

unfoldable pub get_compact_pointer : Bytes → Result (CompactPointer × Bytes)
get_compact_pointer input = do
  (level, input1) ← get_level input
  (key, rest) ←
      ok_or (get_length_prefixed_slice input1) (corruption (text "VersionEdit: missing key"))
  ok (record { level = level; key = key }, rest)

unfoldable pub get_deleted_file : Bytes → Result (DeletedFile × Bytes)
get_deleted_file input = do
  (level, input1) ← get_level input
  (number, rest) ← get_number input1
  ok (record { level = level; number = number }, rest)

unfoldable pub get_new_file : Bytes → Result (NewFile × Bytes)
get_new_file input = do
  (level, input1) ← get_level input
  (meta, rest) ← decode_file input1
  ok (record { level = level; meta = meta }, rest)

-- One round of the loop of `decode_from`: the `match` on the tag, on the edit read so far.
unfoldable pub decode_tagged : ℕ → Bytes → VersionEdit → Result (VersionEdit × Bytes)
decode_tagged tag input edit =
    if tag == 1
    then get_name input >>= (λ (name, rest). ok (record edit { comparator = some name }, rest))
    else if tag == 2
    then get_number input
      >>= (λ (number, rest). ok (record edit { log_number = some number }, rest))
    else if tag == 9
    then get_number input
      >>= (λ (number, rest). ok (record edit { prev_log_number = some number }, rest))
    else if tag == 3
    then get_number input
      >>= (λ (number, rest). ok (record edit { next_file_number = some number }, rest))
    else if tag == 4
    then get_seq input >>= (λ (seq, rest). ok (record edit { last_sequence = some seq }, rest))
    else if tag == 5
    then get_compact_pointer input >>= (λ (item, rest).
      ok (record edit { compact_pointers = edit.compact_pointers ++ item ∷ [] }, rest))
    else if tag == 6
    then get_deleted_file input >>= (λ (item, rest).
      ok (record edit { deleted_files = edit.deleted_files ++ item ∷ [] }, rest))
    else if tag == 7
    then get_new_file input
      >>= (λ (item, rest). ok (record edit { new_files = edit.new_files ++ item ∷ [] }, rest))
    else err (corruption (numbered "VersionEdit: unknown tag " tag))

unfoldable pub decode_field : Bytes → VersionEdit → Result (VersionEdit × Bytes)
decode_field input edit = do
  (tag, input1) ← ok_or (get_varint32 input) (corruption (text "VersionEdit: missing tag"))
  decode_tagged tag input1 edit

-- The `while` loop: a field takes its tag at least, so as many rounds as there are bytes are enough.
unfoldable pub decode_loop : ℕ → Bytes → VersionEdit → Result VersionEdit
decode_loop rounds [] edit = ok edit
decode_loop zero (b ∷ input) edit = panicked
decode_loop (suc rounds) (b ∷ input) edit = do
  (edit', rest) ← decode_field (b ∷ input) edit
  decode_loop rounds rest edit'

unfoldable pub decode_edit : Bytes → Result VersionEdit
decode_edit input = decode_loop (length input) input empty
