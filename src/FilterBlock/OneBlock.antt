-- ===== src/FilterBlock/OneBlock.antt =====
-- The filter of one data block, written by the builder and found by the reader.
use pulsearc_db.Base.{Bytes, [], ◌∷◌, ◌++◌, List, length}
use pulsearc_db.Coding.{to_le_bytes}
use pulsearc_db.FilterBlock.{FilterBlockBuilder, add_key, FilterBlockReader}

unfoldable pub add_keys : FilterBlockBuilder → List Bytes → FilterBlockBuilder
add_keys b [] = b
add_keys b (key ∷ keys) = add_keys (add_key b key) keys

-- The block of one filter: the filter, its offset, the offset of the array, and the logarithm.
abbrev block_of : Bytes → Bytes
block_of filter = filter ++ (to_le_bytes 4 0 ++ (to_le_bytes 4 (length filter) ++ 11 ∷ []))

opened : Bytes → FilterBlockReader
opened filter = record {
  block = block_of filter;
  offset_array_start = length filter;
  num_filters = 1;
  base_lg = 11;
}
