-- ===== src/FilterBlock.antt =====
-- src/filter_block/filter_block.rs: the filters of a table's data blocks, one for each 2 KiB of offsets.
-- The filter policy is a parameter; `none` is its panic, or a range out of the data.
pub mod Keys
pub mod OneBlock
mod Examples
use pulsearc_db.Base.{
  ℕ, zero, suc, ◌+◌, ◌*◌, ◌-◌, ◌/◌, ◌%◌, ◌^◌, Bytes, [], ◌∷◌, ◌++◌, List, length, take, drop,
  get_elem?, ltb, leb, ◌==◌, ◌&&◌, if◌then◌else◌, Option, none, some, Bool, true, false,
}
use pulsearc_db.Base.Options.{◌>>=◌}
use pulsearc_db.Coding.{put_fixed32, decode_fixed32}
use pulsearc_db.Filter.{FilterPolicy}

abbrev pub filter_base_lg : ℕ
filter_base_lg = 11

abbrev pub filter_base : ℕ
filter_base = 2048

-- `keys` is one buffer, in which `start` has the offset of each key.
pub record FilterBlockBuilder : Type 0 where
  pub keys : Bytes
  pub start : List ℕ
  pub result : Bytes
  pub filter_offsets : List ℕ

abbrev pub new_builder : FilterBlockBuilder
new_builder = record { keys = []; start = []; result = []; filter_offsets = [] }

unfoldable pub add_key : FilterBlockBuilder → Bytes → FilterBlockBuilder
add_key b key = record b { start = b.start ++ length b.keys ∷ []; keys = b.keys ++ key }

-- The slices between consecutive offsets, which ascend up to the length of the buffer.
unfoldable pub key_slices : Bytes → List ℕ → List Bytes
key_slices keys [] = []
key_slices keys (from ∷ []) = []
key_slices keys (from ∷ to ∷ more) = take (to - from) (drop from keys) ∷ key_slices keys (to ∷ more)

unfoldable pub put_offsets : List ℕ → Bytes → Bytes
put_offsets [] dst = dst
put_offsets (offset ∷ offsets) dst = put_offsets offsets (put_fixed32 dst offset)

module _ (policy : FilterPolicy) where
  unfoldable pub generate_filter : FilterBlockBuilder → Option FilterBlockBuilder
  generate_filter b =
      let offsets = b.filter_offsets ++ length b.result % 2 ^ 32 ∷ [] in
      let slices = key_slices b.keys (b.start ++ length b.keys ∷ []) in
      let filtered =
        (policy.create_filter slices b.result >>= λ result.
        some (record { keys = []; start = []; result = result; filter_offsets = offsets })) in
      if length b.start == 0 then some (record b { filter_offsets = offsets }) else filtered

  unfoldable pub generate_filters : ℕ → FilterBlockBuilder → Option FilterBlockBuilder
  generate_filters zero b = some b
  generate_filters (suc rounds) b = generate_filter b >>= λ b'. generate_filters rounds b'

  -- Each round of the `while` loop adds one offset.
  unfoldable pub start_block : FilterBlockBuilder → ℕ → Option FilterBlockBuilder
  start_block b block_offset =
      generate_filters (block_offset / filter_base - length b.filter_offsets) b

  unfoldable pub finish : FilterBlockBuilder → Option Bytes
  finish b = (if length b.start == 0 then some b else generate_filter b) >>= λ b'.
      let array_offset = length b'.result % 2 ^ 32 in
      some (
        put_fixed32 (put_offsets b'.filter_offsets b'.result) array_offset
        ++ filter_base_lg % 256 ∷ [])

pub record FilterBlockReader : Type 0 where
  pub block : Bytes
  pub offset_array_start : ℕ
  pub num_filters : ℕ
  pub base_lg : ℕ

unfoldable pub reader_of : Bytes → ℕ → ℕ → Option FilterBlockReader
reader_of contents base_lg array_offset =
    let n = length contents in
    if ltb (n - 5) array_offset
    then none
    else some (record {
      block = contents;
      offset_array_start = array_offset;
      num_filters = (n - 5 - array_offset) / 4;
      base_lg = base_lg;
    })

-- Here `none` is the result of the source, for contents that are too short or out of bounds.
unfoldable pub new_reader : Bytes → Option FilterBlockReader
new_reader contents =
    let n = length contents in
    let reader =
      (get_elem? contents (n - 1) >>= λ base_lg.
      decode_fixed32 (take 4 (drop (n - 5) contents)) >>= λ array_offset.
      reader_of contents base_lg array_offset) in
    if ltb n 5 then none else reader

-- The offset of a filter, from the array behind the filters.
unfoldable pub filter_offset : FilterBlockReader → ℕ → Option ℕ
filter_offset r index = decode_fixed32 (take 4 (drop (r.offset_array_start + index * 4) r.block))

-- A shift of 64 bits or more overflows, and is `none`.
unfoldable pub reader_may_match : FilterPolicy → FilterBlockReader → ℕ → Bytes → Option Bool
reader_may_match policy r block_offset key =
    let index = block_offset / 2 ^ r.base_lg in
    let found =
      (filter_offset r index >>= λ start.
      (if ltb (index + 1) r.num_filters
        then filter_offset r (index + 1)
        else some r.offset_array_start)
      >>= λ limit.
          (if leb start limit && leb limit r.offset_array_start
            then (if start == limit
                then some false
                else policy.key_may_match key (take (limit - start) (drop start r.block)))
            else some true)) in
    if leb 64 r.base_lg then none else if leb r.num_filters index then some true else found
