-- ===== src/Block/Iter/Built/Finished.antt =====
-- src/block/block.rs: the builder's client from `new` to `finish`, and the iterator over what it made.
use pulsearc_db.Base.{
  ℕ, suc, ◌+◌, ◌-◌, ◌*◌, ◌/◌, ◌%◌, ◌^◌, ◌≤◌, ◌<◌, false, Bytes, List, [], ◌∷◌, ◌++◌, some, none,
  ◌≡◌, refl, sym, ◌∙◌, ap, arith, length, take, drop, append_assoc, length-append, le→ltb, ◌==◌,
}
use pulsearc_db.Base.Slices.{drop-append_length}
use pulsearc_db.Result.{Result, ok, ◌>>=◌}
use pulsearc_db.Coding.{to_le_bytes, put_fixed32, decode_fixed32}
use pulsearc_db.Coding.Fixed.{decode_fixed32_field, length-to_le_bytes, take_field}
use pulsearc_db.Comparator.{Comparator}
use pulsearc_db.Block.{encode_restarts}
use pulsearc_db.Block.RestartTrailer.{restart_bytes, put_restarts_lem, length-restart_bytes}
use pulsearc_db.Block.Builder.{Contents, BlockBuilder, new_block_builder, finish_block, new_block}
use pulsearc_db.Block.KeyBuf.{IsKeyBuf, new_key}
use pulsearc_db.Block.Iter.{BlockIter, new_iter, read_restart, seek_to_first, new_key}
use pulsearc_db.Block.Iter.Entries.{Item}
use pulsearc_db.Block.Iter.Forward.{chain_bytes, pairs}
use pulsearc_db.Block.Iter.Walk.{walk, IsBlock, walk-seek_to_first}
use pulsearc_db.Block.Iter.Built.{Holds}
use pulsearc_db.Block.Iter.Built.Loop.{add_all, Ascending, add_all_new}

-- Bytes that end in the count of their restart points make a block.
abbrev block_of : Bytes → Bytes → ℕ → Contents
block_of front body n = record {
  bytes = (front ++ body) ++ to_le_bytes 4 n;
  restart_offset = length front;
  num_restarts = n;
}

new_block_lem :
    (front body : Bytes) (n : ℕ)
    → length body ≡ n * 4
    → n < 2 ^ 32
    → new_block ((front ++ body) ++ to_le_bytes 4 n) ≡ ok (block_of front body n)
unfolding new_block
new_block_lem front body n size few =
    let whole = (front ++ body) ++ to_le_bytes 4 n in
    let total : length whole ≡ length front + n * 4 + 4 = omega (
      arith,
      length-append (front ++ body) (to_le_bytes 4 n),
      length-append front body,
      length-to_le_bytes 4 n,
      size,
    ) in
    let back : length whole - 4 ≡ length (front ++ body) =
      omega (arith, total, length-append front body, size) in
    let start : length whole - 4 - n * 4 ≡ length front = omega (arith, total) in
    rw
      (
        le→ltb (length whole) 4 (omega (arith, total)),
        ap (λ k. drop k whole) back ∙ drop-append_length (front ++ body) (to_le_bytes 4 n),
        decode_fixed32_field n few,
        le→ltb ((length whole - 4) / 4) n (omega (arith, total)),
        start,
      )
      refl

-- The restart points begin with that of the first entry.
first_point :
    (front body : Bytes) (n : ℕ) (more : Bytes)
    → body ≡ to_le_bytes 4 0 ++ more
    → read_restart (new_iter (block_of front body n)) 0 ≡ some 0
unfolding read_restart new_iter
first_point front body n more head =
    let behind = more ++ to_le_bytes 4 n in
    let parts : (front ++ body) ++ to_le_bytes 4 n ≡ front ++ (to_le_bytes 4 0 ++ behind) =
      append_assoc front body (to_le_bytes 4 n)
      ∙ ap (λ t. front ++ (t ++ to_le_bytes 4 n)) head
      ∙ ap (λ t. front ++ t) (append_assoc (to_le_bytes 4 0) more (to_le_bytes 4 n)) in
    let start : length front + 0 * 4 ≡ length front = omega arith in
    ap (λ k. decode_fixed32 (take 4 (drop k ((front ++ body) ++ to_le_bytes 4 n)))) start
    ∙ ap (λ t. decode_fixed32 (take 4 (drop (length front) t))) parts
    ∙ ap (λ t. decode_fixed32 (take 4 t)) (drop-append_length front (to_le_bytes 4 0 ++ behind))
    ∙ ap decode_fixed32 (take_field 4 0 behind)
    ∙ decode_fixed32_field 0 (omega arith)

not_zero : (n : ℕ) → 1 ≤ n → (n == 0) ≡ false
not_zero n h = ground arith

-- The block of a builder's items, with its restart points behind them.
record Finished (b : BlockBuilder) (items : List Item) : Type 0 where
  block : Contents
  made : new_block ((finish_block b).buffer) ≡ ok block
  trailer : Bytes
  on_block : IsBlock block trailer items
  first : read_restart (new_iter block) 0 ≡ some 0

finish_block_lem :
    (b : BlockBuilder)
    → length b.restarts < 2 ^ 32
    → (finish_block b).buffer
      ≡ (b.buffer ++ restart_bytes b.restarts) ++ to_le_bytes 4 (length b.restarts)
unfolding finish_block encode_restarts put_fixed32
finish_block_lem b few =
    let small : length b.restarts % 2 ^ 32 ≡ length b.restarts = omega arith in
    rw (small, put_restarts_lem b.restarts b.buffer) refl

finished :
    (b : BlockBuilder) (items : List Item)
    → Holds b items
    → length b.restarts < 2 ^ 32
    → Finished b items
finished b items h few =
    let n = length b.restarts in
    let body = restart_bytes b.restarts in
    let size : length body ≡ n * 4 = length-restart_bytes b.restarts in
    let (more, points) = h.points in
    record {
      block = block_of b.buffer body n;
      made = ap new_block (finish_block_lem b few) ∙ new_block_lem b.buffer body n size few;
      trailer = body ++ to_le_bytes 4 n;
      on_block = record {
        entries =
            append_assoc b.buffer body (to_le_bytes 4 n)
            ∙ ap (λ t. t ++ (body ++ to_le_bytes 4 n)) h.written;
        limit = ap length h.written;
        chain = h.chain;
        points = omega (arith, size, length-append body (to_le_bytes 4 n));
        some_point = not_zero n (omega (arith, ap length points));
      };
      first =
          first_point b.buffer body n (restart_bytes more)
            (ap restart_bytes points ∙ unfold restart_bytes in refl);
    }

new_builder-Holds :
    (comparator : Comparator) (interval : ℕ)
    → 1 ≤ interval
    → (b : BlockBuilder) × (new_block_builder comparator interval ≡ ok b)
      × Holds b []
      × (b.buffer ≡ [])
      × (b.comparator ≡ comparator)
      × (b.restarts ≡ 0 ∷ [])
unfolding new_block_builder chain_bytes
new_builder-Holds comparator interval h = (
  record {
    comparator = comparator;
    buffer = [];
    restarts = 0 ∷ [];
    counter = 0;
    finished = false;
    last_key = [];
    block_restart_interval = interval;
  },
  rw (le→ltb interval 1 h) refl,
  record {
    written = refl;
    chain = tt;
    last = refl;
    open_still = refl;
    count = omega arith;
    points = ([], refl);
    interval = h;
  },
  refl,
  refl,
  refl,
)

-- A block of the entries: a new builder, an `add` for each of them, `finish`, and `Block::new`.
unfoldable pub built : Comparator → ℕ → List (Bytes × Bytes) → Result Contents
built comparator interval entries =
    new_block_builder comparator interval >>= add_all entries >>= λ builder.
    new_block ((finish_block builder).buffer)

built_lem :
    (comparator : Comparator) (interval : ℕ) (entries : List (Bytes × Bytes))
    → 1 ≤ interval
    → Ascending comparator entries
    → length entries + 1 < 2 ^ 32
    → (block : Contents) × (trailer : Bytes) × (items : List Item) × (built comparator interval
          entries
        ≡ ok block)
      × IsBlock block trailer items
      × (pairs items ≡ entries)
      × (read_restart (new_iter block) 0 ≡ some 0)
unfolding built
built_lem comparator interval entries h ascending few =
    let (b, new, holds, empty, order, points) = new_builder-Holds comparator interval h in
    let (b', all, added) = add_all_new entries b holds empty (rw order ascending) in
    let f =
      finished b' added.all_items added.all_hold
        (omega (arith, added.all_points, ap length points)) in
    (
      f.block,
      f.trailer,
      added.all_items,
      rw (new, all) f.made,
      f.on_block,
      added.all_pairs,
      f.first,
    )

length-pairs : (items : List Item) → length (pairs items) ≡ length items
length-pairs [] = refl
length-pairs (item ∷ items) = ap suc (length-pairs items)

-- Entries whose keys ascend in the comparator's order, fewer than 2 ^ 32 - 1 of them and with lengths of
-- 32 bits, are taken by the builder, for every restart interval from 1 on; and a new iterator over the
-- finished block, from `seek_to_first` on by `next`, sees the same entries and ends without a fault.
pub walk-built :
    (comparator : Comparator) (interval : ℕ) (entries : List (Bytes × Bytes))
    → 1 ≤ interval
    → Ascending comparator entries
    → length entries + 1 < 2 ^ 32
    → (block : Contents) × (at : BlockIter) × (last : BlockIter) × (built comparator interval
          entries
        ≡ ok block)
      × (seek_to_first (new_iter block) ≡ some at)
      × (walk (suc (length entries)) at ≡ some (entries, last))
      × (last.valid ≡ false)
      × (last.status ≡ none)
unfolding new_iter
walk-built comparator interval entries h ascending few =
    let (block, trailer, items, made, is, same, first) =
      built_lem comparator interval entries h ascending few in
    let (at, last, sought, walked, ended, clean) =
      walk-seek_to_first (new_iter block) trailer items is new_key_lem first refl in
    let size : length items ≡ length entries = sym (length-pairs items) ∙ ap length same in
    (
      block,
      at,
      last,
      made,
      sought,
      ap (λ n. walk (suc n) at) (sym size) ∙ walked ∙ ap (λ es. some (es, last)) same,
      ended,
      clean,
    )
  where
    new_key_lem : IsKeyBuf new_key
    new_key_lem = unfold new_key in (refl, omega arith)
