-- ===== src/VersionSet/FileMetaData.antt =====
-- src/version_set/file_meta_data.rs: what an edit says of a table file.
pub mod RoundTrip
use pulsearc_db.Base.{ℕ, Bytes}
use pulsearc_db.Status.{corruption, text}
use pulsearc_db.Result.{Result, ok, err, panicked, ◌>>=◌, ok_or}
use pulsearc_db.Coding.{
  put_varint64, get_varint64, put_length_prefixed_slice, get_length_prefixed_slice,
}

pub record FileMetaData : Type 0 where
  pub number : ℕ
  pub file_size : ℕ
  pub smallest : Bytes
  pub largest : Bytes

unfoldable pub encode_streaming : Bytes → ℕ → ℕ → Bytes → Bytes → Bytes
encode_streaming dst number file_size smallest largest =
    let numbers = put_varint64 (put_varint64 dst number) file_size in
    put_length_prefixed_slice (put_length_prefixed_slice numbers smallest) largest

unfoldable pub encode_file : FileMetaData → Bytes → Bytes
encode_file meta dst =
    let numbers = put_varint64 (put_varint64 dst meta.number) meta.file_size in
    put_length_prefixed_slice (put_length_prefixed_slice numbers meta.smallest) meta.largest

-- The result of the function that the caller hands over, with the input that is left.
unfoldable pub visit {ℓ} : {R : Type ℓ} → Bytes → (ℕ → ℕ → Bytes → Bytes → R) → Result (R × Bytes)
visit input f = do
  (number, input1) ← ok_or (get_varint64 input) (corruption (text "FileMetaData: missing number"))
  (file_size, input2) ←
      ok_or (get_varint64 input1) (corruption (text "FileMetaData: missing file_size"))
  (smallest, input3) ←
      ok_or (get_length_prefixed_slice input2) (corruption (text "FileMetaData: missing smallest"))
  (largest, rest) ←
      ok_or (get_length_prefixed_slice input3) (corruption (text "FileMetaData: missing largest"))
  ok (f number file_size smallest largest, rest)

unfoldable pub decode_file : Bytes → Result (FileMetaData × Bytes)
decode_file input = do
  (number, input1) ← ok_or (get_varint64 input) (corruption (text "FileMetaData: missing number"))
  (file_size, input2) ←
      ok_or (get_varint64 input1) (corruption (text "FileMetaData: missing file_size"))
  (smallest, input3) ←
      ok_or (get_length_prefixed_slice input2) (corruption (text "FileMetaData: missing smallest"))
  (largest, rest) ←
      ok_or (get_length_prefixed_slice input3) (corruption (text "FileMetaData: missing largest"))
  ok (
    record { number = number; file_size = file_size; smallest = smallest; largest = largest },
    rest,
  )
