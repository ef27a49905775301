-- ===== src/Table.antt =====
-- src/table/table_footer.rs: the footer of a table file: two block handles, padding and a magic number.
-- The assertion of debug builds on its length is not modelled.
pub mod Footer
mod Examples
use pulsearc_db.Base.{
  ℕ, ◌+◌, ◌-◌, Bytes, [], ◌++◌, length, take, drop, replicate, ltb, ◌==◌, if◌then◌else◌,
}
use pulsearc_db.Status.{corruption, text}
use pulsearc_db.Result.{Result, ok, err, ◌>>=◌, expect}
use pulsearc_db.Coding.{put_fixed64, decode_fixed64}
use pulsearc_db.Block.{BlockHandle, encode_handle, decode_handle}

abbrev pub encoded_length : ℕ
encoded_length = 48

abbrev pub magic : ℕ
magic = 15800726617472432983

pub record TableFooter : Type 0 where
  pub metaindex : BlockHandle
  pub index : BlockHandle

unfoldable pub encode_footer : TableFooter → Bytes → Bytes
encode_footer footer dst =
    let handles = encode_handle footer.index (encode_handle footer.metaindex dst) in
    let written = length handles - length dst in
    put_fixed64 (if ltb written 40 then handles ++ replicate (40 - written) 0 else handles) magic

unfoldable pub decode_handles : Bytes → Result TableFooter
decode_handles prefix = do
  (metaindex, rest) ← decode_handle prefix
  (index, _) ← decode_handle rest
  ok (record { metaindex = metaindex; index = index })

-- The checks of the length and of the magic number come first.
unfoldable pub decode_footer : Bytes → Result (TableFooter × Bytes)
decode_footer input =
    let found =
      (expect (decode_fixed64 (drop (encoded_length - 8) (take encoded_length input))) >>= λ number.
      if number == magic
      then (decode_handles (take (encoded_length - 8) input) >>= λ footer.
          ok (footer, drop encoded_length input))
      else err (corruption (text "TableFooter: bad magic number"))) in
    if ltb (length input) encoded_length
    then err (corruption (text "TableFooter: truncated input"))
    else found
