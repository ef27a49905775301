-- ===== src/Block.antt =====
-- src/block/block_handle.rs, block_trailer.rs, block_restart_trailer.rs and block_entry.rs: the parts
-- that a block and the references to it are written from.
pub mod Handle
pub mod RestartTrailer
pub mod Entry
pub mod Builder
pub mod KeyBuf
pub mod Iter
mod Examples
use pulsearc_db.Base.{
  ℕ, zero, suc, ◌+◌, ◌*◌, ◌-◌, ◌%◌, ◌^◌, Bytes, [], ◌∷◌, ◌++◌, List, length, take, drop, ltb, ◌==◌,
  if◌then◌else◌, Option, none, some,
}
use pulsearc_db.Status.{corruption, text}
use pulsearc_db.Result.{Result, ok, err, panicked, ◌>>=◌, ok_or, expect}
use pulsearc_db.Crc32c.{mask, unmask}
use pulsearc_db.Coding.{
  put_varint64, get_varint64, put_varint32, get_varint32, put_fixed32, get_fixed32, decode_fixed32,
  get_u8,
}

pub record BlockHandle : Type 0 where
  pub offset : ℕ
  pub size : ℕ

unfoldable pub encode_handle : BlockHandle → Bytes → Bytes
encode_handle handle dst = put_varint64 (put_varint64 dst handle.offset) handle.size

unfoldable pub encode_handle_streaming : Bytes → ℕ → ℕ → Bytes
encode_handle_streaming dst offset size = put_varint64 (put_varint64 dst offset) size

unfoldable pub decode_handle : Bytes → Result (BlockHandle × Bytes)
decode_handle input = do
  (offset, input1) ← ok_or (get_varint64 input) (corruption (text "BlockHandle: missing offset"))
  (size, rest) ← ok_or (get_varint64 input1) (corruption (text "BlockHandle: missing size"))
  ok (record { offset = offset; size = size }, rest)

unfoldable pub visit_handle {ℓ} : {R : Type ℓ} → Bytes → (ℕ → ℕ → R) → Result (R × Bytes)
visit_handle input f = do
  (offset, input1) ← ok_or (get_varint64 input) (corruption (text "BlockHandle: missing offset"))
  (size, rest) ← ok_or (get_varint64 input1) (corruption (text "BlockHandle: missing size"))
  ok (f offset size, rest)

pub record BlockTrailer : Type 0 where
  pub kind : ℕ
  pub crc : ℕ

unfoldable pub encode_trailer : BlockTrailer → Bytes → Bytes
encode_trailer trailer dst = put_fixed32 (dst ++ trailer.kind ∷ []) (mask trailer.crc)

unfoldable pub decode_trailer : Bytes → Result (BlockTrailer × Bytes)
decode_trailer input = do
  (kind, input1) ← ok_or (get_u8 input) (corruption (text "BlockTrailer: missing kind"))
  (crc_raw, rest) ← ok_or (get_fixed32 input1) (corruption (text "BlockTrailer: missing crc"))
  ok (record { kind = kind; crc = unmask crc_raw }, rest)

-- `BlockRestartTrailer`: the restart offsets, and their count behind them.
unfoldable pub put_restarts : List ℕ → Bytes → Bytes
put_restarts [] dst = dst
put_restarts (item ∷ items) dst = put_restarts items (put_fixed32 dst item)

unfoldable pub encode_restarts : List ℕ → Bytes → Bytes
encode_restarts items dst = put_fixed32 (put_restarts items dst) (length items % 2 ^ 32)

-- The `for` loop: each item is read from its own four bytes.
unfoldable pub get_restarts : ℕ → Bytes → Result (List ℕ)
get_restarts zero input = ok []
get_restarts (suc count) input = do
  item ← expect (decode_fixed32 (take 4 input))
  items ← get_restarts count (drop 4 input)
  ok (item ∷ items)

-- The whole input is the trailer.
unfoldable pub decode_restarts : Bytes → Result (List ℕ)
decode_restarts input =
    let count_offset = length input - 4 in
    let items =
      (expect (decode_fixed32 (drop count_offset input)) >>= λ count.
      if count_offset == count * 4
      then get_restarts count input
      else err (corruption (text "BlockRestartTrailer: count/length mismatch"))) in
    if ltb (length input) 4
    then err (corruption (text "BlockRestartTrailer: missing count"))
    else items

pub record BlockEntry : Type 0 where
  pub shared : ℕ
  pub unshared : ℕ
  pub value_len : ℕ
  pub key_delta : Bytes
  pub value : Bytes

unfoldable pub encode_entry : BlockEntry → Bytes → Bytes
encode_entry entry dst =
    let lengths =
      put_varint32 (put_varint32 (put_varint32 dst entry.shared) entry.unshared) entry.value_len in
    (lengths ++ entry.key_delta) ++ entry.value

unfoldable pub encode_entry_streaming : Bytes → ℕ → ℕ → ℕ → Bytes → Bytes → Bytes
encode_entry_streaming dst shared unshared value_len key_delta value =
    let lengths = put_varint32 (put_varint32 (put_varint32 dst shared) unshared) value_len in
    (lengths ++ key_delta) ++ value

-- The next `n` bytes.
unfoldable pub split_bytes : ℕ → Bytes → Option (Bytes × Bytes)
split_bytes n input = if ltb (length input) n then none else some (take n input, drop n input)

unfoldable pub decode_entry : Bytes → Result (BlockEntry × Bytes)
decode_entry input = do
  (shared, input1) ← ok_or (get_varint32 input) (corruption (text "BlockEntry: missing shared"))
  (unshared, input2) ←
      ok_or (get_varint32 input1) (corruption (text "BlockEntry: missing unshared"))
  (value_len, input3) ←
      ok_or (get_varint32 input2) (corruption (text "BlockEntry: missing value_len"))
  (key_delta, input4) ←
      ok_or (split_bytes unshared input3) (corruption (text "BlockEntry: missing key_delta"))
  (value, rest) ←
      ok_or (split_bytes value_len input4) (corruption (text "BlockEntry: missing value"))
  ok (
    record {
      shared = shared;
      unshared = unshared;
      value_len = value_len;
      key_delta = key_delta;
      value = value;
    },
    rest,
  )

unfoldable pub visit_entry {ℓ} :
    {R : Type ℓ} → Bytes → (ℕ → ℕ → ℕ → Bytes → Bytes → R) → Result (R × Bytes)
visit_entry input f = do
  (shared, input1) ← ok_or (get_varint32 input) (corruption (text "BlockEntry: missing shared"))
  (unshared, input2) ←
      ok_or (get_varint32 input1) (corruption (text "BlockEntry: missing unshared"))
  (value_len, input3) ←
      ok_or (get_varint32 input2) (corruption (text "BlockEntry: missing value_len"))
  (key_delta, input4) ←
      ok_or (split_bytes unshared input3) (corruption (text "BlockEntry: missing key_delta"))
  (value, rest) ←
      ok_or (split_bytes value_len input4) (corruption (text "BlockEntry: missing value"))
  ok (f shared unshared value_len key_delta value, rest)
