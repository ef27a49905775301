-- ===== src/Block/Iter/Built/Loop.antt =====
-- src/block/block.rs: the client's loop that adds entries to a builder.
use pulsearc_db.Base.{
  Bool, append-nil, ◌+◌, ◌^◌, ◌≤◌, ◌<◌, true, false, Bytes, List, [], ◌∷◌, ◌++◌, ◌≡◌, refl, sym,
  ◌∙◌, ap, arith, length, append_assoc, ◌||◌,
}
use pulsearc_db.Result.{Result, ok, ◌>>=◌}
use pulsearc_db.Comparator.{Comparator}
use pulsearc_db.Block.Builder.{BlockBuilder, is_empty, is_gt, add_entry}
use pulsearc_db.Block.Iter.Entries.{Item}
use pulsearc_db.Block.Iter.Forward.{pairs}
use pulsearc_db.Block.Iter.Built.{Holds, InOrder, add_entry_lem, pairs-append, Added}

-- The client's loop over the entries that it adds.
unfoldable pub add_all : List (Bytes × Bytes) → BlockBuilder → Result BlockBuilder
add_all [] builder = ok builder
add_all ((key, value) ∷ entries) builder = add_entry builder key value >>= add_all entries

-- Keys that ascend in the builder's order, from above `prev`, and lengths that fit 32 bits.
abbrev pub Above : Comparator → Bytes → List (Bytes × Bytes) → Type 0
Above comparator prev [] = Unit {0}
Above comparator prev ((key, value) ∷ entries) =
    (is_gt (comparator.compare key prev) ≡ true)
    × (length key < 2 ^ 32)
    × (length value < 2 ^ 32)
    × Above comparator key entries

abbrev pub Ascending : Comparator → List (Bytes × Bytes) → Type 0
Ascending comparator [] = Unit {0}
Ascending comparator ((key, value) ∷ entries) =
    (length key < 2 ^ 32) × (length value < 2 ^ 32) × Above comparator key entries

-- What the loop makes of a builder that holds `items`.
pub record AddedAll (b b' : BlockBuilder) (items : List Item) (entries : List (Bytes × Bytes))
    : Type 0 where
  pub all_items : List Item
  pub all_hold : Holds b' all_items
  pub all_pairs : pairs all_items ≡ pairs items ++ entries
  pub all_points : length b'.restarts ≤ length b.restarts + length entries

or_true : (x : Bool) → (x || true) ≡ true
or_true true = refl
or_true false = refl

above→in_order :
    (b : BlockBuilder) (key : Bytes)
    → is_gt (b.comparator.compare key b.last_key) ≡ true
    → InOrder b key
above→in_order b key h = rw h (or_true (is_empty b.buffer))

add_one :
    (b b' : BlockBuilder) (key value : Bytes) (entries : List (Bytes × Bytes)) (b'' : BlockBuilder)
    → add_entry b key value ≡ ok b'
    → add_all entries b' ≡ ok b''
    → add_all ((key, value) ∷ entries) b ≡ ok b''
unfolding add_all
add_one b b' key value entries b'' one more = rw one more

-- The builder after the whole loop, and what it holds.
abbrev pub Loop : BlockBuilder → List Item → List (Bytes × Bytes) → Type 0
Loop b items entries =
    (b' : BlockBuilder) × (add_all entries b ≡ ok b') × AddedAll b b' items entries

further :
    (b b' : BlockBuilder) (items : List Item) (key value : Bytes) (entries : List (Bytes × Bytes))
    → add_entry b key value ≡ ok b'
    → (added : Added b b' items key value) → Loop b' (items ++ added.item ∷ []) entries
    → Loop b items ((key, value) ∷ entries)
further b b' items key value entries one added (b'', more, all) = (
  b'',
  add_one b b' key value entries b'' one more,
  record {
    all_items = all.all_items;
    all_hold = all.all_hold;
    all_pairs =
        all.all_pairs
        ∙ ap (λ t. t ++ entries) (pairs-append items added.item)
        ∙ append_assoc (pairs items) ((added.item.key, added.item.value) ∷ []) entries
        ∙ ap (λ k. pairs items ++ (k, added.item.value) ∷ entries) added.on_key
        ∙ ap (λ v. pairs items ++ (key, v) ∷ entries) added.on_value;
    all_points = omega (arith, all.all_points, added.few_points);
  },
)

add_all_lem :
    (entries : List (Bytes × Bytes)) (b : BlockBuilder) (items : List Item)
    → Holds b items
    → Above b.comparator b.last_key entries
    → Loop b items entries
unfolding add_all
add_all_lem [] b items h above = (
  b,
  refl,
  record {
    all_items = items;
    all_hold = h;
    all_pairs = sym (append-nil (pairs items));
    all_points = omega arith;
  },
)
add_all_lem ((key, value) ∷ entries) b items h (gt, kf, vf, above) =
    let (b', one, added) = add_entry_lem b items key value h kf vf (above→in_order b key gt) in
    further b b' items key value entries one added (
      add_all_lem entries b' (items ++ added.item ∷ []) added.holds
        (rw (added.same_order, added.last_key) above))

-- The loop from a new builder: its first key stands behind none.
pub add_all_new :
    (entries : List (Bytes × Bytes)) (b : BlockBuilder)
    → Holds b []
    → b.buffer ≡ []
    → Ascending b.comparator entries
    → Loop b [] entries
unfolding add_all
add_all_new [] b h empty ascending = add_all_lem [] b [] h tt
add_all_new ((key, value) ∷ entries) b h empty (kf, vf, above) =
    let (b', one, added) =
      add_entry_lem b [] key value h kf vf (rw empty (unfold is_empty in refl)) in
    further b b' [] key value entries one added (
      add_all_lem entries b' (added.item ∷ []) added.holds
        (rw (added.same_order, added.last_key) above))
