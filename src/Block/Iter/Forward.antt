-- ===== src/Block/Iter/Forward.antt =====
-- src/block/block.rs: walking over a block from its first entry to its last.
use pulsearc_db.Base.{
  ℕ, zero, suc, ◌+◌, ◌*◌, ◌≤◌, ◌<◌, true, false, Bytes, List, [], ◌∷◌, ◌++◌, some, ◌≡◌, refl, sym,
  ◌∙◌, ap, arith, inl, inr, Bool-cases, length, take, drop, length-append, length-drop,
  append_assoc, ltb, leb, ltb→lt, le→ltb, length-take,
}
use pulsearc_db.Block.KeyBuf.{deref, IsKeyBuf}
use pulsearc_db.Block.Iter.{
  BlockIter, read_restart, past_end, parse_next_entry, advance_restart, value_of, Contents,
}
use pulsearc_db.Block.Iter.Entries.{Item, item_bytes, Follows, parse_next_entry_lem}
use pulsearc_db.Coding.{decode_fixed32, from_le_bytes}
use pulsearc_db.Block.Builder.{Contents}

unfoldable pub chain_bytes : List Item → Bytes
chain_bytes [] = []
chain_bytes (item ∷ items) = item_bytes item ++ chain_bytes items

-- Each item stands behind the one before it.
abbrev pub Chain : Bytes → List Item → Type 0
Chain prev [] = Unit {0}
Chain prev (item ∷ items) = Follows prev item × Chain item.key items

abbrev pub pairs : List Item → List (Bytes × Bytes)
pairs [] = []
pairs (item ∷ items) = (item.key, item.value) ∷ pairs items

-- The iterator has the given items in front of it, and the restart points behind them.
pub record IsAt (it : BlockIter) (front trailer : Bytes) (items : List Item) : Type 0 where
  pub entries : (it.block).bytes ≡ front ++ (chain_bytes items ++ trailer)
  pub limit : (it.block).restart_offset ≡ length front + length (chain_bytes items)
  pub here : it.next_entry_offset ≡ length front
  pub buffer : IsKeyBuf it.key
  pub chain : Chain (deref it.key) items
  pub points : (it.block).num_restarts * 4 ≤ length trailer

-- Another restart index.
abbrev pub reindexed : ℕ → BlockIter → BlockIter
reindexed index it = record it { restart_index = index }

decode_four :
    (bytes : Bytes) → 4 ≤ length bytes → (v : ℕ) × (decode_fixed32 (take 4 bytes) ≡ some v)
unfolding decode_fixed32
decode_four bytes h = (
  from_le_bytes (take 4 (take 4 bytes)),
  rw (le→ltb (length (take 4 bytes)) 4 (omega (arith, length-take 4 bytes))) refl,
)

-- A restart point of the block is read without a panic.
pub read_restart_lem :
    (it : BlockIter) (front trailer : Bytes) (items : List Item) (index : ℕ)
    → IsAt it front trailer items
    → index < (it.block).num_restarts
    → (offset : ℕ) × (read_restart it index ≡ some offset)
unfolding read_restart
read_restart_lem it front trailer items index at inside =
    decode_four (drop ((it.block).restart_offset + index * 4) (it.block).bytes) (
      omega (
        arith,
        at.limit,
        at.points,
        length-drop ((it.block).restart_offset + index * 4) (it.block).bytes,
        ap length at.entries,
        length-append front (chain_bytes items ++ trailer),
        length-append (chain_bytes items) trailer,
      ))

pub IsAt-reindexed :
    (it : BlockIter) (front trailer : Bytes) (items : List Item) (index : ℕ)
    → IsAt it front trailer items
    → IsAt (reindexed index it) front trailer items
IsAt-reindexed it front trailer items index at = record {
  entries = at.entries;
  limit = at.limit;
  here = at.here;
  buffer = at.buffer;
  chain = at.chain;
  points = at.points;
}

-- Moving the restart index up changes nothing else.
pub advance_restart_lem :
    (rounds : ℕ) (it : BlockIter) (front trailer : Bytes) (items : List Item)
    → IsAt it front trailer items
    → (index : ℕ) × (advance_restart rounds it ≡ some (reindexed index it))
unfolding advance_restart
advance_restart_lem zero it front trailer items at = (it.restart_index, refl)
advance_restart_lem (suc rounds) it front trailer items at =
    elim (Bool-cases (ltb (it.restart_index + 1) (it.block).num_restarts)) [
      | inr last ↦ (it.restart_index, rw last refl)
      | inl more ↦
          let (offset, read) =
            read_restart_lem it front trailer items (it.restart_index + 1) at (ltb→lt _ _ more) in
          let (index, moved) =
            advance_restart_lem rounds (reindexed (it.restart_index + 1) it) front trailer items
              (IsAt-reindexed it front trailer items (it.restart_index + 1) at) in
          elim (Bool-cases (leb offset it.current_offset)) [
            | inl up ↦ (index, rw (more, read, up) moved)
            | inr stay ↦ (it.restart_index, rw (more, read, stay) refl)
          ]
    ]

-- What a step forward finds: the next item, or the end.
pub record Found (it at : BlockIter) (item : Item) (front trailer : Bytes) (items : List Item)
    : Type 0 where
  pub is_valid : at.valid ≡ true
  pub on_key : deref at.key ≡ item.key
  pub on_value : value_of at ≡ item.value
  pub same_status : at.status ≡ it.status
  pub next_at : IsAt at (front ++ item_bytes item) trailer items

pub parsed_item :
    (it : BlockIter) (front trailer : Bytes) (item : Item) (items : List Item)
    → IsAt it front trailer (item ∷ items)
    → (at : BlockIter) × (parse_next_entry it ≡ (at, true)) × Found it at item front trailer items
unfolding chain_bytes
parsed_item it front trailer item items is =
    let (at, parsed, stands) =
      parse_next_entry_lem it item front (chain_bytes items) trailer is.chain.0 is.entries is.limit
        is.here is.buffer in
    (
      at,
      parsed,
      record {
        is_valid = stands.is_valid;
        on_key = stands.on_key;
        on_value = stands.on_value;
        same_status = stands.same_status;
        next_at = record {
          entries =
              ap (λ (b : Contents). b.bytes) stands.same_block
              ∙ is.entries
              ∙ ap (λ t. front ++ t) (append_assoc (item_bytes item) (chain_bytes items) trailer)
              ∙ sym (append_assoc front (item_bytes item) (chain_bytes items ++ trailer));
          limit =
              ap (λ (b : Contents). b.restart_offset) stands.same_block
              ∙ is.limit
              ∙ omega (
                arith,
                length-append (item_bytes item) (chain_bytes items),
                length-append front (item_bytes item),
              );
          here = stands.goes_on ∙ sym (length-append front (item_bytes item));
          buffer = stands.key_buffer;
          chain = rw stands.on_key is.chain.1;
          points = rw stands.same_block is.points;
        };
      },
    )

pub parsed_end :
    (it : BlockIter) (front trailer : Bytes)
    → IsAt it front trailer []
    → parse_next_entry it ≡ (past_end it, false)
unfolding parse_next_entry chain_bytes
parsed_end it front trailer is =
    rw (reached (it.block).restart_offset it.next_entry_offset (omega (arith, is.limit, is.here)))
      refl
  where
    reached : (a b : ℕ) → a ≤ b → leb a b ≡ true
    reached a b h = ground arith
