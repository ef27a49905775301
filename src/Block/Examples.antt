-- ===== src/Block/Examples.antt =====
-- src/block/ on small parts of a block.
use pulsearc_db.Base.{[], ◌∷◌, refl, arith}
use pulsearc_db.Block.{BlockTrailer, BlockEntry}
use pulsearc_db.Block.Entry.{IsEntry}

abbrev trailer : BlockTrailer
trailer = record { kind = 1; crc = 0xe3069283 }

-- `apple` after `apply`: four bytes are shared.
abbrev entry : BlockEntry
entry = record { shared = 4; unshared = 1; value_len = 2; key_delta = 101 ∷ []; value = 1 ∷ 2 ∷ [] }

entry-IsEntry : IsEntry entry
entry-IsEntry = record {
  shared_fits = omega arith;
  unshared_fits = omega arith;
  value_len_fits = omega arith;
  key_delta_length = refl;
  value_length = refl;
}
