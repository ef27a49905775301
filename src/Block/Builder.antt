-- ===== src/Block/Builder.antt =====
-- src/block/block.rs: the `BlockBuilder`, which writes prefix-compressed entries between restart points.
-- An operation takes the builder and returns the new one; `panicked` is an assertion that fails.
-- `finish` returns the buffer as part of the builder.
mod Tests
use Prim.Native.Nat.{Ordering}
use pulsearc_db.Base.{
  Bool, true, false, ℕ, ◌+◌, ◌*◌, ◌-◌, ◌/◌, ◌%◌, ◌^◌, Bytes, [], ◌∷◌, ◌++◌, List, length, take,
  drop, ltb, ◌||◌, ◌&&◌, not, if◌then◌else◌,
}
use pulsearc_db.Status.{corruption, text}
use pulsearc_db.Result.{Result, ok, err, panicked, ◌>>=◌, expect}
use pulsearc_db.Coding.{decode_fixed32}
use pulsearc_db.Comparator.{Comparator, shared_length}
use pulsearc_db.Block.{encode_entry_streaming, encode_restarts}

pub record Contents : Type 0 where
  pub bytes : Bytes
  pub restart_offset : ℕ
  pub num_restarts : ℕ

-- `Block::new`: the count of restart points is checked against the length.
unfoldable pub new_block : Bytes → Result Contents
new_block bytes =
    let max_restarts = (length bytes - 4) / 4 in
    let contents =
      (expect (decode_fixed32 (drop (length bytes - 4) bytes)) >>= λ num_restarts.
      if ltb max_restarts num_restarts
      then err (corruption (text "Block: bad restart count"))
      else ok (record {
        bytes = bytes;
        restart_offset = (length bytes - 4) - num_restarts * 4;
        num_restarts = num_restarts;
      })) in
    if ltb (length bytes) 4
    then err (corruption (text "Block: too small for restart count"))
    else contents

pub record BlockBuilder : Type 0 where
  pub comparator : Comparator
  pub buffer : Bytes
  pub restarts : List ℕ
  pub counter : ℕ
  pub finished : Bool
  pub last_key : Bytes
  pub block_restart_interval : ℕ

unfoldable pub new_block_builder : Comparator → ℕ → Result BlockBuilder
new_block_builder comparator restart_interval =
    if ltb restart_interval 1
    then panicked
    else ok (record {
      comparator = comparator;
      buffer = [];
      restarts = 0 ∷ [];
      counter = 0;
      finished = false;
      last_key = [];
      block_restart_interval = restart_interval;
    })

unfoldable pub reset_builder : BlockBuilder → BlockBuilder
reset_builder builder = record {
  comparator = builder.comparator;
  buffer = [];
  restarts = 0 ∷ [];
  counter = 0;
  finished = false;
  last_key = [];
  block_restart_interval = builder.block_restart_interval;
}

unfoldable pub is_gt : Ordering → Bool
is_gt Ordering.lt = false
is_gt Ordering.eq = false
is_gt Ordering.gt = true

unfoldable pub is_empty : Bytes → Bool
is_empty [] = true
is_empty (b ∷ bs) = false

unfoldable pub current_size_estimate : BlockBuilder → ℕ
current_size_estimate builder = length builder.buffer + length builder.restarts * 4 + 4

-- The three assertions of `add`.
unfoldable pub accepts : BlockBuilder → Bytes → Bool
accepts builder key =
    (not builder.finished && not (ltb builder.block_restart_interval builder.counter))
    && (is_empty builder.buffer || is_gt (builder.comparator.compare key builder.last_key))

-- The entry is written with its first `shared` bytes left out.
unfoldable pub write_entry : BlockBuilder → ℕ → Bytes → Bytes → BlockBuilder
write_entry builder shared key value = record {
  comparator = builder.comparator;
  buffer =
      encode_entry_streaming builder.buffer (shared % 2 ^ 32) ((length key - shared) % 2 ^ 32)
        (length value % 2 ^ 32) (drop shared key) value;
  restarts = builder.restarts;
  counter = builder.counter + 1;
  finished = builder.finished;
  last_key = take shared builder.last_key ++ drop shared key;
  block_restart_interval = builder.block_restart_interval;
}

-- The `else` of `add`: the next entry begins a restart point.
unfoldable pub begin_restart : BlockBuilder → BlockBuilder
begin_restart builder = record {
  comparator = builder.comparator;
  buffer = builder.buffer;
  restarts = builder.restarts ++ (length builder.buffer % 2 ^ 32) ∷ [];
  counter = 0;
  finished = builder.finished;
  last_key = builder.last_key;
  block_restart_interval = builder.block_restart_interval;
}

unfoldable pub add_entry : BlockBuilder → Bytes → Bytes → Result BlockBuilder
add_entry builder key value =
    if accepts builder key
    then ok (
        if ltb builder.counter builder.block_restart_interval
        then write_entry builder (shared_length builder.last_key key) key value
        else write_entry (begin_restart builder) 0 key value)
    else panicked

-- The restart offsets and their count are written as `BlockRestartTrailer` writes them.
unfoldable pub finish_block : BlockBuilder → BlockBuilder
finish_block builder = record {
  comparator = builder.comparator;
  buffer = encode_restarts builder.restarts builder.buffer;
  restarts = builder.restarts;
  counter = builder.counter;
  finished = true;
  last_key = builder.last_key;
  block_restart_interval = builder.block_restart_interval;
}
