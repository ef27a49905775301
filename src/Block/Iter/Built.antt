-- ===== src/Block/Iter/Built.antt =====
-- src/block/block.rs: a block from the builder, read by the iterator.
pub mod Loop
pub mod Finished
use Prim.Native.Nat.{Ordering}
use pulsearc_db.Base.{
  ℕ, zero, suc, ◌+◌, ◌-◌, ◌*◌, ◌%◌, ◌^◌, ◌≤◌, ◌<◌, Bool, true, false, Bytes, List, [], ◌∷◌, ◌++◌,
  some, ◌≡◌, refl, sym, ◌∙◌, ap, arith, inl, inr, Bool-cases, length, take, drop, take-append-drop,
  append_assoc, append-nil, ltb, leb, ◌==◌, ◌&&◌, ◌||◌, not, if◌then◌else◌, length-append, le→ltb,
  ltb→lt, ltb→le, ==→eq,
}
use pulsearc_db.Result.{Result, ok, ◌>>=◌}
use pulsearc_db.Comparator.{Comparator, shared_length}
use pulsearc_db.Block.Builder.{
  BlockBuilder, accepts, is_empty, is_gt, write_entry, begin_restart, add_entry,
}
use pulsearc_db.Block.Iter.Entries.{
  Item, item_bytes, Follows, encode_entry_streaming_lem, item_bytes-nonempty,
}
use pulsearc_db.Block.Iter.Forward.{chain_bytes, Chain, pairs}

shared_length_lem :
    (a b : Bytes)
    → (shared_length a b ≤ length a)
      × (shared_length a b ≤ length b)
      × (take (shared_length a b) a ≡ take (shared_length a b) b)
unfolding shared_length
shared_length_lem [] b = (omega arith, omega arith, refl)
shared_length_lem (x ∷ a) [] = (omega arith, omega arith, refl)
shared_length_lem (x ∷ a) (y ∷ b) = elim (Bool-cases (x == y)) [
  | inl same ↦
      let (la, lb, eq) = shared_length_lem a b in
      let e : x ≡ y = ==→eq x y same in
      rw same (
        omega (arith, la),
        omega (arith, lb),
        ap (λ t. t ∷ take (shared_length a b) a) e ∙ ap (λ t. y ∷ t) eq,
      )
  | inr other ↦ rw other (omega arith, omega arith, refl)
]

-- The key of the last item, if there is one.
abbrev pub last_of : Bytes → List Item → Bytes
last_of prev [] = prev
last_of prev (item ∷ items) = last_of item.key items

Chain-append :
    (prev : Bytes) (items : List Item) (item : Item)
    → Chain prev items
    → Follows (last_of prev items) item
    → Chain prev (items ++ item ∷ [])
Chain-append prev [] item c f = (f, tt)
Chain-append prev (i ∷ items) item (g, c) f = (g, Chain-append i.key items item c f)

chain_bytes-append :
    (items : List Item) (item : Item)
    → chain_bytes (items ++ item ∷ []) ≡ chain_bytes items ++ item_bytes item
unfolding chain_bytes
chain_bytes-append [] item = append-nil (item_bytes item)
chain_bytes-append (i ∷ items) item =
    ap (λ t. item_bytes i ++ t) (chain_bytes-append items item)
    ∙ sym (append_assoc (item_bytes i) (chain_bytes items) (item_bytes item))

pairs-append :
    (items : List Item) (item : Item)
    → pairs (items ++ item ∷ []) ≡ pairs items ++ (item.key, item.value) ∷ []
pairs-append [] item = refl
pairs-append (i ∷ items) item = ap (λ t. (i.key, i.value) ∷ t) (pairs-append items item)

last_of-append :
    (prev : Bytes) (items : List Item) (item : Item) → last_of prev (items ++ item ∷ []) ≡ item.key
last_of-append prev [] item = refl
last_of-append prev (i ∷ items) item = last_of-append i.key items item

-- A builder that holds the given items and is not finished.
pub record Holds (b : BlockBuilder) (items : List Item) : Type 0 where
  pub written : b.buffer ≡ chain_bytes items
  pub chain : Chain [] items
  pub last : b.last_key ≡ last_of [] items
  pub open_still : b.finished ≡ false
  pub count : b.counter ≤ b.block_restart_interval
  pub points : (more : List ℕ) × (b.restarts ≡ 0 ∷ more)
  pub interval : 1 ≤ b.block_restart_interval

exact : (n : ℕ) → n < 2 ^ 32 → n % 2 ^ 32 ≡ n
exact n h = omega arith

-- One entry more, of which as much is shared as the last key has.
write_entry_lem :
    (b : BlockBuilder) (items : List Item) (item : Item)
    → Holds b items
    → Follows (last_of [] items) item
    → b.counter < b.block_restart_interval
    → Holds (write_entry b item.shared item.key item.value) (items ++ item ∷ [])
unfolding write_entry
write_entry_lem b items item h f room = record {
  written =
      rw
        (
          exact item.shared (omega (arith, f.in_key, f.key_fits)),
          exact (length item.key - item.shared) (omega (arith, f.key_fits)),
          exact (length item.value) f.value_fits,
        )
        (encode_entry_streaming_lem b.buffer item
          ∙ ap (λ t. t ++ item_bytes item) h.written
          ∙ sym (chain_bytes-append items item));
  chain = Chain-append [] items item h.chain f;
  last =
      ap (λ t. take item.shared t ++ drop item.shared item.key) h.last
      ∙ ap (λ t. t ++ drop item.shared item.key) f.same
      ∙ take-append-drop item.shared item.key
      ∙ sym (last_of-append [] items item);
  open_still = h.open_still;
  count = omega arith;
  points = h.points;
  interval = h.interval;
}

begin_restart_lem :
    (b : BlockBuilder) (items : List Item)
    → Holds b items
    → Holds (begin_restart b) items
      × ((begin_restart b).counter < (begin_restart b).block_restart_interval)
unfolding begin_restart
begin_restart_lem b items h = (
  record {
    written = h.written;
    chain = h.chain;
    last = h.last;
    open_still = h.open_still;
    count = omega arith;
    points = (
      (h.points).0 ++ (length b.buffer % 2 ^ 32) ∷ [],
      ap (λ t. t ++ (length b.buffer % 2 ^ 32) ∷ []) (h.points).1,
    );
    interval = h.interval;
  },
  h.interval,
)

-- What `add` makes of a builder.
record Added (b b' : BlockBuilder) (items : List Item) (key value : Bytes) : Type 0 where
  item : Item
  on_key : item.key ≡ key
  on_value : item.value ≡ value
  holds : Holds b' (items ++ item ∷ [])
  same_order : b'.comparator ≡ b.comparator
  few_points : length b'.restarts ≤ length b.restarts + 1
  last_key : b'.last_key ≡ key

add_entry_in_room :
    (b b0 : BlockBuilder) (items : List Item) (item : Item)
    → Holds b0 items
    → Follows (last_of [] items) item
    → b0.counter < b0.block_restart_interval
    → b0.comparator ≡ b.comparator
    → length b0.restarts ≤ length b.restarts + 1
    → Added b (write_entry b0 item.shared item.key item.value) items item.key item.value
add_entry_in_room b b0 items item h f room same few = record {
  item = item;
  on_key = refl;
  on_value = refl;
  holds = write_entry_lem b0 items item h f room;
  same_order = unfold write_entry in same;
  few_points = unfold write_entry in few;
  last_key = (write_entry_lem b0 items item h f room).last ∙ last_of-append [] items item;
}

-- The key may stand behind the last one.
abbrev pub InOrder : BlockBuilder → Bytes → Type 0
InOrder b key = (is_empty b.buffer || is_gt (b.comparator.compare key b.last_key)) ≡ true

accepted :
    (b : BlockBuilder) (items : List Item) (key : Bytes)
    → Holds b items
    → InOrder b key
    → accepts b key ≡ true
unfolding accepts
accepted b items key h o = rw (h.open_still, le→ltb b.block_restart_interval b.counter h.count) o

add_entry_lem :
    (b : BlockBuilder) (items : List Item) (key value : Bytes)
    → Holds b items
    → length key < 2 ^ 32
    → length value < 2 ^ 32
    → InOrder b key
    → (b' : BlockBuilder) × (add_entry b key value ≡ ok b') × Added b b' items key value
unfolding add_entry
add_entry_lem b items key value h kf vf o =
    elim (Bool-cases (ltb b.counter b.block_restart_interval)) [
      | inl room ↦
          let s = shared_length b.last_key key in
          let (in_last, in_key, same) = shared_length_lem b.last_key key in
          let follows : Follows (last_of [] items)
              (record { shared = s; key = key; value = value }) =
            record {
              in_prev = omega (arith, in_last, ap length h.last);
              in_key = in_key;
              same = ap (take s) (sym h.last) ∙ same;
              key_fits = kf;
              value_fits = vf;
            } in
          (
            write_entry b s key value,
            simp (accepted b items key h o, room),
            add_entry_in_room b b items (record { shared = s; key = key; value = value }) h follows
                (ltb→lt _ _ room) refl (omega arith),
          )
      | inr full ↦
          let (h', room) = begin_restart_lem b items h in
          let follows : Follows (last_of [] items)
              (record { shared = 0; key = key; value = value }) =
            record {
              in_prev = omega arith;
              in_key = omega arith;
              same = refl;
              key_fits = kf;
              value_fits = vf;
            } in
          (
            write_entry (begin_restart b) 0 key value,
            simp (accepted b items key h o, full),
            add_entry_in_room b (begin_restart b) items
                (record { shared = 0; key = key; value = value }) h' follows room
                (unfold begin_restart in refl)
                (unfold begin_restart in
                  omega (arith, length-append b.restarts ((length b.buffer % 2 ^ 32) ∷ []))),
          )
    ]
