-- ===== src/Block/Builder/Tests.antt =====
-- src/block/block.rs on the two keys `ab` and `ac`.
use pulsearc_db.Base.{[], ◌∷◌, ◌≡◌, refl}
use pulsearc_db.Result.{Result, ok, ◌>>=◌}
use pulsearc_db.Comparator.{bytewise}
use pulsearc_db.Coding.{
  put_varint32, put_varint64, put_fixed32, to_le_bytes, decode_fixed32, from_le_bytes,
}
use pulsearc_db.Comparator.{shared_length, compare_bytes}
use pulsearc_db.Block.{encode_entry_streaming, encode_restarts, put_restarts}
use pulsearc_db.Block.Builder.{
  Contents, new_block_builder, accepts, is_empty, is_gt, write_entry, add_entry, finish_block,
  new_block,
}

abbrev two_entries : Result Contents
two_entries = do
  builder ← new_block_builder bytewise 16
  builder1 ← add_entry builder (97 ∷ 98 ∷ []) (1 ∷ [])
  builder2 ← add_entry builder1 (97 ∷ 99 ∷ []) (2 ∷ [])
  new_block ((finish_block builder2).buffer)

two_entries_lem :
    two_entries
    ≡ ok (record {
      bytes = 0 ∷ 2 ∷ 1 ∷ 97 ∷ 98 ∷ 1 ∷ 1 ∷ 1 ∷ 1 ∷ 99 ∷ 2 ∷ 0 ∷ 0 ∷ 0 ∷ 0 ∷ 1 ∷ 0 ∷ 0 ∷ 0 ∷ [];
      restart_offset = 11;
      num_restarts = 1;
    })
unfolding new_block_builder add_entry accepts is_empty write_entry encode_entry_streaming
    put_varint32 put_varint64 shared_length is_gt compare_bytes new_block finish_block
    encode_restarts put_fixed32 put_restarts to_le_bytes decode_fixed32 from_le_bytes
two_entries_lem = refl
