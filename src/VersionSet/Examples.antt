-- ===== src/VersionSet/Examples.antt =====
-- src/version_set/ on one edit.
use pulsearc_db.Base.{[], ◌∷◌, none, some, ◌≡◌, arith}
use pulsearc_db.Result.{ok}
use pulsearc_db.VersionSet.FileMetaData.{FileMetaData}
use pulsearc_db.VersionSet.FileMetaData.RoundTrip.{IsFile}
use pulsearc_db.VersionSet.VersionEdit.{VersionEdit, encode_edit, decode_edit}
use pulsearc_db.VersionSet.VersionEdit.Fields.{AreFields, IsField, fields}
use pulsearc_db.VersionSet.VersionEdit.Fields.RoundTrip.{decode_edit-encode_edit}

abbrev file : FileMetaData
file = record { number = 12; file_size = 4096; smallest = 97 ∷ []; largest = 122 ∷ [] }

file-IsFile : IsFile file
file-IsFile = record {
  number_fits = omega arith;
  file_size_fits = omega arith;
  smallest_fits = omega arith;
  largest_fits = omega arith;
}

-- An edit after a flush and a compaction out of level 0.
abbrev edit : VersionEdit
edit = record {
  comparator = none;
  log_number = some 9;
  prev_log_number = none;
  next_file_number = some 13;
  last_sequence = some 500;
  compact_pointers = record { level = 0; key = 109 ∷ [] } ∷ [];
  deleted_files = record { level = 0; number = 7 } ∷ [];
  new_files = record { level = 1; meta = file } ∷ [];
}

edit-AreFields : AreFields (fields edit)
unfolding AreFields IsField fields
edit-AreFields = (
  omega arith,
  (
    omega arith,
    (
      omega arith,
      ((omega arith, omega arith), ((omega arith, omega arith), ((omega arith, file-IsFile), tt))),
    ),
  ),
)

decode_edit-encode_edit_example : decode_edit (encode_edit edit []) ≡ ok edit
decode_edit-encode_edit_example = decode_edit-encode_edit edit edit-AreFields
