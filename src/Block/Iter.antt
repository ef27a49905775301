-- ===== src/Block/Iter.antt =====
-- src/block/block.rs: `BlockIter`, the iterator over a block. An operation takes the iterator and
-- returns the new one; `none` is a slice index out of range. Whether the block is borrowed or shared
-- makes no difference to it.
pub mod Entries
pub mod Forward
pub mod Walk
pub mod Built
mod Examples
use Prim.Native.Nat.{Ordering}
use pulsearc_db.Base.{
  ℕ, zero, suc, ◌+◌, ◌-◌, ◌*◌, ◌/◌, Bool, true, false, Bytes, List, [], ◌∷◌, ◌++◌, Option, none,
  some, length, take, drop, ltb, leb, ◌==◌, ◌&&◌, if◌then◌else◌, String,
}
use pulsearc_db.Base.Options.{◌>>=◌}
use pulsearc_db.Status.{Status, corruption, text}
use pulsearc_db.Coding.{decode_fixed32, get_varint32}
use pulsearc_db.Comparator.{Comparator}
use pulsearc_db.Block.Builder.{Contents}
use pulsearc_db.Block.KeyBuf.{KeyBuf, new_key, deref, clear_key, truncate_key, extend_key}

pub record BlockIter : Type 0 where
  pub block : Contents
  pub current_offset : ℕ
  pub next_entry_offset : ℕ
  pub restart_index : ℕ
  pub key : KeyBuf
  pub value_offset : ℕ
  pub value_len : ℕ
  pub valid : Bool
  pub status : Option Status

unfoldable pub new_iter : Contents → BlockIter
new_iter block = record {
  block = block;
  current_offset = block.restart_offset;
  next_entry_offset = block.restart_offset;
  restart_index = block.num_restarts;
  key = new_key;
  value_offset = 0;
  value_len = 0;
  valid = false;
  status = none;
}

unfoldable pub read_restart : BlockIter → ℕ → Option ℕ
read_restart it idx =
    decode_fixed32 (take 4 (drop ((it.block).restart_offset + idx * 4) (it.block).bytes))

unfoldable pub set_corruption : String → BlockIter → BlockIter
set_corruption msg it = record it {
  valid = false;
  current_offset = (it.block).restart_offset;
  next_entry_offset = (it.block).restart_offset;
  status = some (corruption (text msg));
}

-- The end of the entries.
unfoldable pub past_end : BlockIter → BlockIter
past_end it = record it {
  valid = false;
  current_offset = (it.block).restart_offset;
  next_entry_offset = (it.block).restart_offset;
}

-- The entry behind its three numbers, of which `p` is what is left and `consumed` how much they took.
unfoldable pub accept_entry : BlockIter → ℕ → ℕ → ℕ → ℕ → BlockIter
accept_entry it shared unshared value_len consumed =
    let key_pos = it.next_entry_offset + consumed in
    let value_pos = key_pos + unshared in
    record it {
      current_offset = it.next_entry_offset;
      key = extend_key (take unshared (drop key_pos (it.block).bytes)) (truncate_key shared it.key);
      value_offset = value_pos;
      value_len = value_len;
      next_entry_offset = value_pos + value_len;
      valid = true;
    }

unfoldable pub check_entry : BlockIter → ℕ → ℕ → ℕ → ℕ → Bytes → BlockIter × Bool
check_entry it start_len shared unshared value_len p =
    if ltb (length p) (unshared + value_len)
    then (set_corruption "Block: truncated entry" it, false)
    else if ltb (length (deref it.key)) shared
    then (set_corruption "Block: shared > prev key len" it, false)
    else (accept_entry it shared unshared value_len (start_len - length p), true)

unfoldable pub parse_next_entry : BlockIter → BlockIter × Bool
parse_next_entry it =
    let restart_offset = (it.block).restart_offset in
    let p = drop it.next_entry_offset (take restart_offset (it.block).bytes) in
    if leb restart_offset it.next_entry_offset
    then (past_end it, false)
    else elim (get_varint32 p) [
      | none ↦ (set_corruption "Block: bad shared" it, false)
      | some (shared, p1) ↦ elim (get_varint32 p1) [
        | none ↦ (set_corruption "Block: bad unshared" it, false)
        | some (unshared, p2) ↦ elim (get_varint32 p2) [
          | none ↦ (set_corruption "Block: bad value_len" it, false)
          | some (value_len, p3) ↦ check_entry it (length p) shared unshared value_len p3
        ]
      ]
    ]

unfoldable pub seek_to_restart_point : BlockIter → ℕ → Option BlockIter
seek_to_restart_point it idx = read_restart it idx >>= λ offset. some (record it {
  key = clear_key it.key;
  restart_index = idx;
  next_entry_offset = offset;
  current_offset = offset;
  valid = false;
})

unfoldable pub invalidated : BlockIter → BlockIter
invalidated it = record it { valid = false }

unfoldable pub seek_to_first : BlockIter → Option BlockIter
seek_to_first it =
    let sought = (seek_to_restart_point it 0 >>= λ at. some (parse_next_entry at).0) in
    if (it.block).num_restarts == 0 then some (invalidated it) else sought

-- The loop of `seek_to_last`. A round takes a byte at least, so there are no more than bytes.
unfoldable pub parse_to_last : ℕ → BlockIter → BlockIter
parse_to_last zero it = it
parse_to_last (suc rounds) it =
    let (at, parsed) = parse_next_entry it in
    let rest = parse_to_last rounds at in
    if parsed && ltb at.next_entry_offset (at.block).restart_offset then rest else at

unfoldable pub seek_to_last : BlockIter → Option BlockIter
seek_to_last it =
    let sought =
      (seek_to_restart_point it ((it.block).num_restarts - 1) >>= λ at.
      some (parse_to_last (length (it.block).bytes) at)) in
    if (it.block).num_restarts == 0 then some (invalidated it) else sought

-- The loop of `next` that moves the restart index up, which it does at most once for each point.
unfoldable pub advance_restart : ℕ → BlockIter → Option BlockIter
advance_restart zero it = some it
advance_restart (suc rounds) it =
    let step =
      (read_restart it (it.restart_index + 1) >>= λ offset.
      let further = advance_restart rounds (record it { restart_index = it.restart_index + 1 }) in
      if leb offset it.current_offset then further else some it) in
    if ltb (it.restart_index + 1) (it.block).num_restarts then step else some it

unfoldable pub next_entry : BlockIter → Option BlockIter
next_entry it = let at = (parse_next_entry it).0 in advance_restart (at.block).num_restarts at

-- The key of an entry at a restart point, and what of the numbers before it is wrong.
pub data Probe : Type 0 where
  found_key : Bytes → Probe
  corrupt : String → Probe

-- A `get_varint32` whose result is not used.
unfoldable pub skip_varint : Bytes → Bytes
skip_varint p = elim (get_varint32 p) [ none ↦ p | some (x, rest) ↦ rest ]

unfoldable pub probe_key : Bytes → Probe
probe_key p = elim (get_varint32 (skip_varint p)) [
  | none ↦ corrupt "Block: bad seek unshared"
  | some (unshared, p2) ↦
      let p3 = skip_varint p2 in
      if ltb (length p3) unshared
      then corrupt "Block: truncated seek"
      else found_key (take unshared p3)
]

module _ (user : Comparator) where
  -- The binary search among the restart points: the index, or the iterator that a corruption leaves.
  unfoldable pub search_restart : ℕ → Bytes → BlockIter → ℕ → ℕ → Option (ℕ × Option BlockIter)
  search_restart zero target it left right = some (left, none)
  search_restart (suc rounds) target it left right =
      let mid = left + (right - left + 1) / 2 in
      let upper = search_restart rounds target it mid right in
      let lower = search_restart rounds target it left (mid - 1) in
      let step : Option (ℕ × Option BlockIter) =
        (read_restart it mid >>= λ offset.
        let probed : Option (ℕ × Option BlockIter) =
          elim (probe_key (drop offset (take (it.block).restart_offset (it.block).bytes))) [
            | corrupt msg ↦ some (left, some (set_corruption msg it))
            | found_key mid_key ↦ elim (user.compare mid_key target) [
              | Ordering.lt ↦ upper
              | _ ↦ lower
            ]
          ] in
        if ltb (it.block).restart_offset offset then none else probed) in
      if ltb left right then step else some (left, none)

  -- The linear search from a restart point.
  unfoldable pub scan_to : ℕ → Bytes → BlockIter → BlockIter
  scan_to zero target it = it
  scan_to (suc rounds) target it =
      let (at, parsed) = parse_next_entry it in
      let rest = scan_to rounds target at in
      let compared : BlockIter = elim (user.compare (deref at.key) target) [
        | Ordering.lt ↦ rest
        | _ ↦ at
      ] in
      if parsed then compared else at

  unfoldable pub seek : Bytes → BlockIter → Option BlockIter
  seek target it =
      let last = (it.block).num_restarts - 1 in
      let sought =
        (search_restart last target it 0 last >>= λ (left, broken).
        let scanned =
          (seek_to_restart_point it left >>= λ at.
          some (scan_to (suc (length (it.block).bytes)) target at)) in
        elim broken [ some stopped ↦ some stopped | none ↦ scanned ]) in
      if (it.block).num_restarts == 0 then some (invalidated it) else sought

-- The first loop of `prev`: the restart point in front of the entry, or `none` at the first entry.
unfoldable pub retreat_restart : ℕ → ℕ → BlockIter → Option (Option ℕ)
retreat_restart zero original it =
    read_restart it 0 >>= λ offset. if leb original offset then some none else some (some 0)
retreat_restart (suc index) original it =
    let lower = retreat_restart index original it in
    read_restart it (suc index) >>= λ offset.
    if leb original offset then lower else some (some (suc index))

-- The second loop of `prev`.
unfoldable pub parse_up_to : ℕ → ℕ → BlockIter → BlockIter
parse_up_to zero original it = it
parse_up_to (suc rounds) original it =
    let (at, parsed) = parse_next_entry it in
    let rest = parse_up_to rounds original at in
    if parsed && ltb at.next_entry_offset original then rest else at

unfoldable pub prev_entry : BlockIter → Option BlockIter
prev_entry it = retreat_restart it.restart_index it.current_offset it >>= λ point. elim point [
  | none ↦ some (past_end (record it { restart_index = 0 }))
  | some index ↦ seek_to_restart_point it index >>= λ at.
      some (parse_up_to (length (it.block).bytes) it.current_offset at)
]

unfoldable pub value_of : BlockIter → Bytes
value_of it = take it.value_len (drop it.value_offset (it.block).bytes)
