-- ===== src/Block/Iter/Examples.antt =====
-- src/block/block.rs on a block of the keys `ab`, `ac` and `b` with two entries to a restart point.
use pulsearc_db.Base.{[], ◌∷◌, some, none, false, ◌≡◌, refl, arith, Bytes, List, take, ◌++◌}
use pulsearc_db.Result.{ok}
use pulsearc_db.Comparator.{bytewise, compare_bytes}
use pulsearc_db.Block.Builder.{Contents, is_gt}
use pulsearc_db.Block.KeyBuf.{
  new_key, IsKeyBuf, deref, clear_key, truncate_key, extend_key, key_buf_lem,
}
use pulsearc_db.Block.Iter.{BlockIter, new_iter, seek_to_first}
use pulsearc_db.Block.Iter.Walk.{walk}
use pulsearc_db.Block.Iter.Built.Loop.{Ascending}
use pulsearc_db.Block.Iter.Built.Finished.{built, walk-built}

abbrev three_entries : List (Bytes × Bytes)
three_entries = (97 ∷ 98 ∷ [], 1 ∷ []) ∷ (97 ∷ 99 ∷ [], 2 ∷ []) ∷ (98 ∷ [], []) ∷ []

three_entries-Ascending : Ascending bytewise three_entries
unfolding is_gt compare_bytes
three_entries-Ascending = (
  omega arith,
  omega arith,
  (refl, omega arith, omega arith, (refl, omega arith, omega arith, tt)),
)

walk-built_example :
    (block : Contents) × (at : BlockIter) × (last : BlockIter) × (built bytewise 2 three_entries
      ≡ ok block)
    × (seek_to_first (new_iter block) ≡ some at)
    × (walk 4 at ≡ some (three_entries, last))
    × (last.valid ≡ false)
    × (last.status ≡ none)
walk-built_example =
    walk-built bytewise 2 three_entries (omega arith) three_entries-Ascending (omega arith)

new_key-IsKeyBuf : IsKeyBuf new_key
unfolding new_key
new_key-IsKeyBuf = (refl, omega arith)

key_buf_lem_example :
    ((deref (clear_key new_key) ≡ []) × IsKeyBuf (clear_key new_key))
    × ((deref (truncate_key 1 new_key) ≡ take 1 (deref new_key))
        × IsKeyBuf (truncate_key 1 new_key))
    × ((deref (extend_key (7 ∷ 8 ∷ []) new_key) ≡ deref new_key ++ (7 ∷ 8 ∷ []))
        × IsKeyBuf (extend_key (7 ∷ 8 ∷ []) new_key))
key_buf_lem_example = key_buf_lem new_key 1 (7 ∷ 8 ∷ []) new_key-IsKeyBuf
