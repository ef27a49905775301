-- ===== src/VersionSet/FileMetaData/RoundTrip.antt =====
-- A file's description is read back from its encoding.
use pulsearc_db.Base.{Bytes, ◌++◌, length, ◌<◌, ◌^◌, ◌≡◌, append_assoc, ◌∙◌, [], ap, sym}
use pulsearc_db.Result.{ok}
use pulsearc_db.Coding.{put_varint64, put_length_prefixed_slice}
use pulsearc_db.Coding.Varint.{put_varint64-append, get_varint64-put_varint64}
use pulsearc_db.Coding.Prefixed.{put_length_prefixed_slice-append, get_length_prefixed_slice-put}
use pulsearc_db.VersionSet.FileMetaData.{FileMetaData, encode_file, decode_file}

-- The numbers are u64, and the lengths of the keys fit their u32 prefixes.
pub record IsFile (meta : FileMetaData) : Type 0 where
  pub number_fits : meta.number < 2 ^ 64
  pub file_size_fits : meta.file_size < 2 ^ 64
  pub smallest_fits : length meta.smallest < 2 ^ 32
  pub largest_fits : length meta.largest < 2 ^ 32

assoc4 : (x a b c d : Bytes) → (((x ++ a) ++ b) ++ c) ++ d ≡ x ++ (a ++ (b ++ (c ++ d)))
assoc4 x a b c d =
    append_assoc ((x ++ a) ++ b) c d
    ∙ append_assoc (x ++ a) b (c ++ d)
    ∙ append_assoc x a (b ++ (c ++ d))

file_bytes : FileMetaData → Bytes
file_bytes meta =
    put_varint64 [] meta.number
    ++ (put_varint64 [] meta.file_size
        ++ (put_length_prefixed_slice [] meta.smallest
            ++ put_length_prefixed_slice [] meta.largest))

encode_file_lem :
    (meta : FileMetaData) (dst : Bytes) → encode_file meta dst ≡ dst ++ file_bytes meta
unfolding encode_file file_bytes
encode_file_lem meta dst =
    let numbers = put_varint64 (put_varint64 dst meta.number) meta.file_size in
    rw
      (
        put_length_prefixed_slice-append (put_length_prefixed_slice numbers meta.smallest)
            meta.largest,
        put_length_prefixed_slice-append numbers meta.smallest,
        put_varint64-append (put_varint64 dst meta.number) meta.file_size,
        put_varint64-append dst meta.number,
      )
      (assoc4 dst (put_varint64 [] meta.number) (put_varint64 [] meta.file_size)
        (put_length_prefixed_slice [] meta.smallest) (put_length_prefixed_slice [] meta.largest))

pub encode_file-append :
    (meta : FileMetaData) (dst : Bytes) → encode_file meta dst ≡ dst ++ encode_file meta []
encode_file-append meta dst =
    encode_file_lem meta dst ∙ ap (λ t. dst ++ t) (sym (encode_file_lem meta []))

-- A file's description, with u64 numbers and keys whose lengths fit 32 bits, is decoded from its
-- encoding, and what follows is left.
pub decode_file-encode_file :
    (meta : FileMetaData) (rest : Bytes)
    → IsFile meta
    → decode_file (encode_file meta [] ++ rest) ≡ ok (meta, rest)
unfolding decode_file file_bytes
decode_file-encode_file meta rest h =
    let a = put_varint64 [] meta.number in
    let b = put_varint64 [] meta.file_size in
    let c = put_length_prefixed_slice [] meta.smallest in
    let d = put_length_prefixed_slice [] meta.largest in
    rw (
      encode_file_lem meta [],
      append_assoc a (b ++ (c ++ d)) rest,
      append_assoc b (c ++ d) rest,
      append_assoc c d rest,
      get_varint64-put_varint64 meta.number (b ++ (c ++ (d ++ rest))) h.number_fits,
      get_varint64-put_varint64 meta.file_size (c ++ (d ++ rest)) h.file_size_fits,
      get_length_prefixed_slice-put meta.smallest (d ++ rest) h.smallest_fits,
      get_length_prefixed_slice-put meta.largest rest h.largest_fits,
    )
