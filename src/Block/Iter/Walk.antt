-- ===== src/Block/Iter/Walk.antt =====
-- src/block/block.rs: all entries of a block, from `seek_to_first` by `next`.
use pulsearc_db.Base.{
  ℕ, zero, suc, ◌*◌, ◌≤◌, true, false, Bytes, List, [], ◌∷◌, ◌++◌, Option, none, some, ◌≡◌, refl,
  ◌∙◌, ap, arith, length, if◌then◌else◌, ◌==◌,
}
use pulsearc_db.Base.Options.{◌>>=◌}
use pulsearc_db.Block.Builder.{Contents}
use pulsearc_db.Block.KeyBuf.{deref, IsKeyBuf, key_buf_lem, clear_key}
use pulsearc_db.Block.Iter.{
  BlockIter, read_restart, past_end, parse_next_entry, next_entry, value_of, seek_to_first,
  seek_to_restart_point, clear_key,
}
use pulsearc_db.Block.Iter.Entries.{Item, item_bytes}
use pulsearc_db.Block.Iter.Forward.{
  chain_bytes, Chain, pairs, IsAt, reindexed, Found, advance_restart_lem, parsed_item, parsed_end,
  IsAt-reindexed,
}

-- The client's loop, `while it.valid() { …; it.next() }`: the keys and values that it sees, and the
-- iterator at its end. `none` is a panic, or that there are more entries than rounds.
unfoldable pub walk : ℕ → BlockIter → Option (List (Bytes × Bytes) × BlockIter)
walk zero it = none
walk (suc rounds) it =
    let rest =
      (next_entry it >>= λ at.
      walk rounds at >>= λ (entries, last). some ((deref it.key, value_of it) ∷ entries, last)) in
    if it.valid then rest else some ([], it)

next_item :
    (it : BlockIter) (front trailer : Bytes) (item : Item) (items : List Item)
    → IsAt it front trailer (item ∷ items)
    → (at : BlockIter) × (next_entry it ≡ some at) × Found it at item front trailer items
unfolding next_entry value_of
next_item it front trailer item items is =
    let (at, parsed, found) = parsed_item it front trailer item items is in
    let (index, moved) =
      advance_restart_lem (at.block).num_restarts at (front ++ item_bytes item) trailer items
        found.next_at in
    (
      reindexed index at,
      rw parsed moved,
      record {
        is_valid = found.is_valid;
        on_key = found.on_key;
        on_value = found.on_value;
        same_status = found.same_status;
        next_at = IsAt-reindexed at (front ++ item_bytes item) trailer items index found.next_at;
      },
    )

-- The end: the iterator is no longer valid, and its status is as it was.
next_end :
    (it : BlockIter) (front trailer : Bytes)
    → IsAt it front trailer []
    → (at : BlockIter) × (next_entry it ≡ some at) × (at.valid ≡ false) × (at.status ≡ it.status)
unfolding next_entry past_end
next_end it front trailer is =
    let parsed = parsed_end it front trailer is in
    let (index, moved) =
      advance_restart_lem ((past_end it).block).num_restarts (past_end it) front trailer [] ended in
    (reindexed index (past_end it), rw parsed moved, refl, refl)
  where
    ended : IsAt (past_end it) front trailer []
    ended = record {
      entries = is.entries;
      limit = is.limit;
      here = is.limit ∙ unfold chain_bytes in omega arith;
      buffer = is.buffer;
      chain = tt;
      points = is.points;
    }

-- What the walk has seen, and how it has ended.
abbrev pub Walked : ℕ → BlockIter → List (Bytes × Bytes) → Type 0
Walked rounds it entries =
    (last : BlockIter) × (walk rounds it ≡ some (entries, last))
    × (last.valid ≡ false)
    × (last.status ≡ it.status)

walk_step :
    (rounds : ℕ) (it at last : BlockIter) (entries : List (Bytes × Bytes))
    → it.valid ≡ true
    → next_entry it ≡ some at
    → walk rounds at ≡ some (entries, last)
    → walk (suc rounds) it ≡ some ((deref it.key, value_of it) ∷ entries, last)
unfolding walk
walk_step rounds it at last entries valid stepped walked = simp (valid, stepped, walked)

walk_stop : (rounds : ℕ) (it : BlockIter) → it.valid ≡ false → walk (suc rounds) it ≡ some ([], it)
unfolding walk
walk_stop rounds it ended = simp (ended)

pub walk_lem :
    (items : List Item) (it : BlockIter) (front trailer : Bytes)
    → it.valid ≡ true
    → IsAt it front trailer items
    → Walked (suc (suc (length items))) it ((deref it.key, value_of it) ∷ pairs items)
walk_lem [] it front trailer valid is =
    let (at, stepped, ended, status) = next_end it front trailer is in
    (at, walk_step 1 it at at [] valid stepped (walk_stop 0 at ended), ended, status)
walk_lem (item ∷ items) it front trailer valid is =
    let (at, stepped, found) = next_item it front trailer item items is in
    let (last, walked, ended, status) =
      walk_lem items at (front ++ item_bytes item) trailer found.is_valid found.next_at in
    let seen : (deref at.key, value_of at) ∷ pairs items ≡ pairs (item ∷ items) =
      ap (λ k. (k, value_of at) ∷ pairs items) found.on_key
      ∙ ap (λ v. (item.key, v) ∷ pairs items) found.on_value in
    (
      last,
      walk_step (suc (suc (length items))) it at last (pairs (item ∷ items)) valid stepped
          (walked ∙ ap (λ es. some (es, last)) seen),
      ended,
      status ∙ found.same_status,
    )

-- A block of the items: their bytes, and behind them restart points of which the first is the start.
pub record IsBlock (block : Contents) (trailer : Bytes) (items : List Item) : Type 0 where
  pub entries : block.bytes ≡ chain_bytes items ++ trailer
  pub limit : block.restart_offset ≡ length (chain_bytes items)
  pub chain : Chain [] items
  pub points : block.num_restarts * 4 ≤ length trailer
  pub some_point : (block.num_restarts == 0) ≡ false

-- The iterator at the start of the block.
unfoldable at_start : BlockIter → BlockIter
at_start it = record it {
  key = clear_key it.key;
  restart_index = 0;
  next_entry_offset = 0;
  current_offset = 0;
  valid = false;
}

at_start-IsAt :
    (it : BlockIter) (trailer : Bytes) (items : List Item)
    → IsBlock it.block trailer items
    → IsKeyBuf it.key
    → IsAt (at_start it) [] trailer items
unfolding at_start
at_start-IsAt it trailer items is buffer =
    let cleared = (key_buf_lem it.key 0 [] buffer).0 in
    record {
      entries = is.entries;
      limit = is.limit ∙ omega arith;
      here = refl;
      buffer = cleared.1;
      chain = rw cleared.0 is.chain;
      points = is.points;
    }

sought :
    (it : BlockIter)
    → ((it.block).num_restarts == 0) ≡ false
    → read_restart it 0 ≡ some 0
    → seek_to_first it ≡ some (parse_next_entry (at_start it)).0
unfolding seek_to_first seek_to_restart_point at_start
sought it some_point first = simp (some_point, first)

-- Whatever the iterator has been at, with no fault so far, `seek_to_first` and the walk from there see
-- the items of its block, all of them and in their order, and end without a panic and with no fault.
pub walk-seek_to_first :
    (it : BlockIter) (trailer : Bytes) (items : List Item)
    → IsBlock it.block trailer items
    → IsKeyBuf it.key
    → read_restart it 0 ≡ some 0
    → it.status ≡ none
    → (at : BlockIter) × (last : BlockIter) × (seek_to_first it ≡ some at)
      × (walk (suc (length items)) at ≡ some (pairs items, last))
      × (last.valid ≡ false)
      × (last.status ≡ none)
walk-seek_to_first it trailer [] is buffer first clean =
    let parsed = parsed_end (at_start it) [] trailer (at_start-IsAt it trailer [] is buffer) in
    let at = past_end (at_start it) in
    (
      at,
      at,
      sought it is.some_point first ∙ ap (λ p. some p.0) parsed,
      walk_stop 0 at (unfold past_end in refl),
      unfold past_end in refl,
      unfold past_end at_start in clean,
    )
walk-seek_to_first it trailer (item ∷ items) is buffer first clean =
    let (at, parsed, found) =
      parsed_item (at_start it) [] trailer item items
        (at_start-IsAt it trailer (item ∷ items) is buffer) in
    let (last, walked, ended, status) =
      walk_lem items at (item_bytes item) trailer found.is_valid found.next_at in
    let seen : (deref at.key, value_of at) ∷ pairs items ≡ pairs (item ∷ items) =
      ap (λ k. (k, value_of at) ∷ pairs items) found.on_key
      ∙ ap (λ v. (item.key, v) ∷ pairs items) found.on_value in
    (
      at,
      last,
      sought it is.some_point first ∙ ap (λ p. some p.0) parsed,
      walked ∙ ap (λ es. some (es, last)) seen,
      ended,
      status ∙ found.same_status ∙ unfold at_start in clean,
    )
