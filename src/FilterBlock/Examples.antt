-- ===== src/FilterBlock/Examples.antt =====
-- src/filter_block/filter_block.rs over a policy that keeps the keys' first bytes.
use pulsearc_db.Base.{Bytes, ◌++◌, map, get_or, some, true}
use pulsearc_db.Filter.{FilterPolicy}

abbrev first_bytes : FilterPolicy
first_bytes = record {
  create_filter = λ keys dst. some (dst ++ map (λ (key : Bytes). get_or key 0 0) keys);
  key_may_match = λ key filter. some true;
}
