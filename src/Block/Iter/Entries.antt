-- ===== src/Block/Iter/Entries.antt =====
-- src/block/block.rs: the entries of a block as a list, and the parsing of one of them.
use pulsearc_db.Base.{
  refl, ℕ, ◌+◌, ◌-◌, ◌^◌, ◌≤◌, ◌<◌, Bytes, [], ◌++◌, ◌≡◌, sym, ◌∙◌, ap, length, take, drop,
  length-append, append_assoc, leb, arith, false, some, ◌∷◌, true, le→ltb, length-drop,
  take-append-drop,
}
use pulsearc_db.Base.Slices.{
  take_front, drop-append_length, drop_front, drop-drop, take-append_length,
}
use pulsearc_db.Coding.{put_varint32, get_varint32}
use pulsearc_db.Coding.Varint.{put_varint32-append, get_varint32-put_varint32}
use pulsearc_db.Block.{encode_entry_streaming, get_varint32}
use pulsearc_db.Block.KeyBuf.{deref, IsKeyBuf, key_buf_lem, truncate_key}
use pulsearc_db.Block.Iter.{
  BlockIter, parse_next_entry, check_entry, accept_entry, value_of, truncate_key,
}

-- An entry: how much of the key before it is shared, its key and its value.
pub record Item : Type 0 where
  pub shared : ℕ
  pub key : Bytes
  pub value : Bytes

-- The three numbers in front of the entry.
unfoldable pub numbers : Item → Bytes
numbers item =
    put_varint32 [] item.shared
    ++ (put_varint32 [] (length item.key - item.shared) ++ put_varint32 [] (length item.value))

unfoldable pub item_bytes : Item → Bytes
item_bytes item = numbers item ++ (drop item.shared item.key ++ item.value)

-- The item stands behind an entry with the key `prev`, and its lengths fit 32 bits.
pub record Follows (prev : Bytes) (item : Item) : Type 0 where
  pub in_prev : item.shared ≤ length prev
  pub in_key : item.shared ≤ length item.key
  pub same : take item.shared prev ≡ take item.shared item.key
  pub key_fits : length item.key < 2 ^ 32
  pub value_fits : length item.value < 2 ^ 32

-- What the builder appends for an entry.
pub encode_entry_streaming_lem :
    (dst : Bytes) (item : Item)
    → encode_entry_streaming dst item.shared
        (length item.key - item.shared)
        (length item.value)
        (drop item.shared item.key)
        item.value
      ≡ dst ++ item_bytes item
unfolding encode_entry_streaming item_bytes numbers
encode_entry_streaming_lem dst item =
    let a = put_varint32 dst item.shared in
    let b = put_varint32 a (length item.key - item.shared) in
    rw
      (
        put_varint32-append b (length item.value),
        put_varint32-append a (length item.key - item.shared),
        put_varint32-append dst item.shared,
      )
      (simp append_assoc)

not_leb : {a b : ℕ} → b < a → leb a b ≡ false
not_leb h = ground arith

numbers_split :
    (item : Item) (tail : Bytes)
    → numbers item ++ tail
      ≡ put_varint32 [] item.shared
        ++ (put_varint32 [] (length item.key - item.shared)
            ++ (put_varint32 [] (length item.value) ++ tail))
unfolding numbers
numbers_split item tail = simp append_assoc

-- A varint takes a byte at least.
put_varint32-nonempty : (v : ℕ) → v < 2 ^ 32 → 1 ≤ length (put_varint32 [] v)
put_varint32-nonempty v h = nonempty (put_varint32 [] v) (get_varint32-put_varint32 v [] h)
  where
    nonempty : (bytes : Bytes) → get_varint32 (bytes ++ []) ≡ some (v, []) → 1 ≤ length bytes
    nonempty [] e = absurd (none_read e)
      where
        none_read : get_varint32 [] ≡ some (v, []) → ⊥
        none_read e = unfold get_varint32 in cc e
    nonempty (b ∷ bytes) e = omega arith

pub item_bytes-nonempty :
    {prev : Bytes} (item : Item) → Follows prev item → 1 ≤ length (item_bytes item)
unfolding item_bytes numbers
item_bytes-nonempty item f =
    let n = put_varint32 [] item.shared in
    omega (
      arith,
      put_varint32-nonempty item.shared (omega (arith, f.in_key, f.key_fits)),
      length-append (numbers item) (drop item.shared item.key ++ item.value),
      length-append n
          (put_varint32 [] (length item.key - item.shared) ++ put_varint32 [] (length item.value)),
    )

parse_step :
    (it : BlockIter) (p p1 p2 p3 : Bytes) (shared unshared value_len : ℕ)
    → drop it.next_entry_offset (take (it.block).restart_offset (it.block).bytes) ≡ p
    → leb (it.block).restart_offset it.next_entry_offset ≡ false
    → get_varint32 p ≡ some (shared, p1)
    → get_varint32 p1 ≡ some (unshared, p2)
    → get_varint32 p2 ≡ some (value_len, p3)
    → parse_next_entry it ≡ check_entry it (length p) shared unshared value_len p3
unfolding parse_next_entry
parse_step it p p1 p2 p3 shared unshared value_len window inside a b c =
    rw (window, inside, a, b, c)
      (ap (λ t. check_entry it (length t) shared unshared value_len p3) window)

module _ (it : BlockIter) (item : Item) (front rest trailer : Bytes)
    (follows : Follows (deref it.key) item)
    (entries : (it.block).bytes ≡ front ++ ((item_bytes item ++ rest) ++ trailer))
    (limit : (it.block).restart_offset ≡ length front + length (item_bytes item ++ rest))
    (here : it.next_entry_offset ≡ length front) (buffer : IsKeyBuf it.key) where
  -- The bytes that the parse reads.
  window :
      drop it.next_entry_offset (take (it.block).restart_offset (it.block).bytes)
      ≡ numbers item ++ ((drop item.shared item.key ++ item.value) ++ rest)
  unfolding item_bytes
  window =
      let all = front ++ (item_bytes item ++ rest) in
      rw (entries, limit, here)
        (ap (λ t. drop (length front) (take (length front + length (item_bytes item ++ rest)) t))
            (sym (append_assoc front (item_bytes item ++ rest) trailer))
          ∙ ap (drop (length front)) (
              take_front (length front + length (item_bytes item ++ rest)) all trailer
                (length-append front (item_bytes item ++ rest)))
          ∙ drop-append_length front (item_bytes item ++ rest)
          ∙ append_assoc (numbers item) (drop item.shared item.key ++ item.value) rest)

  payload : Bytes
  payload = (drop item.shared item.key ++ item.value) ++ rest

  past_start : leb (it.block).restart_offset it.next_entry_offset ≡ false
  past_start = not_leb (
      omega (
        arith,
        limit,
        here,
        length-append (item_bytes item) rest,
        item_bytes-nonempty item follows,
      ))

  parse_item :
      parse_next_entry it
      ≡ check_entry it
          (length (numbers item ++ payload))
          item.shared
          (length item.key - item.shared)
          (length item.value)
          payload
  unfolding payload
  parse_item =
      parse_step it (numbers item ++ payload)
        (put_varint32 [] (length item.key - item.shared)
          ++ (put_varint32 [] (length item.value) ++ payload))
        (put_varint32 [] (length item.value) ++ payload) payload item.shared
        (length item.key - item.shared) (length item.value) window past_start
        (ap get_varint32 (numbers_split item payload)
          ∙ get_varint32-put_varint32 item.shared _
              (omega (arith, follows.in_key, follows.key_fits)))
        (get_varint32-put_varint32 (length item.key - item.shared) _
          (omega (arith, follows.key_fits)))
        (get_varint32-put_varint32 (length item.value) payload follows.value_fits)

  consumed : length (numbers item ++ payload) - length payload ≡ length (numbers item)
  consumed = omega (arith, length-append (numbers item) payload)

  checked :
      check_entry it
        (length (numbers item ++ payload))
        item.shared
        (length item.key - item.shared)
        (length item.value)
        payload
      ≡ (
        accept_entry it item.shared
            (length item.key - item.shared)
            (length item.value)
            (length (numbers item)),
        true,
      )
  unfolding check_entry payload
  checked =
      rw
        (
          le→ltb (length payload) (length item.key - item.shared + length item.value) (
              omega (
                arith,
                length-append (drop item.shared item.key ++ item.value) rest,
                length-append (drop item.shared item.key) item.value,
                length-drop item.shared item.key,
              )),
          le→ltb (length (deref it.key)) item.shared follows.in_prev,
          consumed,
        )
        refl

  at_payload :
      drop (it.next_entry_offset + length (numbers item)) (it.block).bytes
      ≡ drop item.shared item.key ++ (item.value ++ (rest ++ trailer))
  unfolding item_bytes
  at_payload =
      rw (here, entries)
        (ap (drop (length front + length (numbers item))) (
            ap (λ t. front ++ t) (simp append_assoc)
            ∙ sym (
                append_assoc front (numbers item)
                  (drop item.shared item.key ++ (item.value ++ (rest ++ trailer)))))
          ∙ drop_front (length front + length (numbers item)) (front ++ numbers item)
              (drop item.shared item.key ++ (item.value ++ (rest ++ trailer)))
              (length-append front (numbers item)))

  -- The iterator behind the item.
  after : BlockIter
  after =
      accept_entry it item.shared (length item.key - item.shared) (length item.value)
        (length (numbers item))

  -- What the iterator stands on: the item's key and value, at the start of what follows.
  pub record Stands (at : BlockIter) : Type 0 where
    pub same_block : at.block ≡ it.block
    pub is_valid : at.valid ≡ true
    pub on_key : deref at.key ≡ item.key
    pub on_value : value_of at ≡ item.value
    pub key_buffer : IsKeyBuf at.key
    pub goes_on : at.next_entry_offset ≡ length front + length (item_bytes item)
    pub same_status : at.status ≡ it.status

  after_key : (deref after.key ≡ item.key) × IsKeyBuf after.key
  unfolding after accept_entry
  after_key =
      let cut = (key_buf_lem it.key item.shared [] buffer).1 in
      let delta =
        take (length item.key - item.shared)
          (drop (it.next_entry_offset + length (numbers item)) (it.block).bytes) in
      let longer = (key_buf_lem (truncate_key item.shared it.key) 0 delta cut.1).2 in
      (
        longer.0
            ∙ ap (λ t. t ++ delta) (cut.0 ∙ follows.same)
            ∙ ap (λ t. take item.shared item.key ++ t) taken
            ∙ take-append-drop item.shared item.key,
        longer.1,
      )
    where
      taken :
          take
            (length item.key - item.shared)
            (drop (it.next_entry_offset + length (numbers item)) (it.block).bytes)
          ≡ drop item.shared item.key
      taken =
          ap (take (length item.key - item.shared)) at_payload
          ∙ take_front (length item.key - item.shared) (drop item.shared item.key)
              (item.value ++ (rest ++ trailer)) (length-drop item.shared item.key)

  after_value : value_of after ≡ item.value
  unfolding after accept_entry value_of
  after_value =
      let at = it.next_entry_offset + length (numbers item) in
      let n = length item.key - item.shared in
      ap (take (length item.value)) (
        sym (drop-drop n at (it.block).bytes)
        ∙ ap (drop n) at_payload
        ∙ drop_front n (drop item.shared item.key) (item.value ++ (rest ++ trailer))
            (length-drop item.shared item.key))
      ∙ take-append_length item.value (rest ++ trailer)

  after_offset : after.next_entry_offset ≡ length front + length (item_bytes item)
  unfolding after accept_entry item_bytes
  after_offset = omega (
    arith,
    here,
    length-append (numbers item) (drop item.shared item.key ++ item.value),
    length-append (drop item.shared item.key) item.value,
    length-drop item.shared item.key,
  )

  -- Behind the bytes of the entries before it, an item is parsed: the iterator stands on its key and
  -- value, and goes on at the bytes that follow.
  pub parse_next_entry_lem : (at : BlockIter) × (parse_next_entry it ≡ (at, true)) × Stands at
  parse_next_entry_lem = (
    after,
    parse_item ∙ checked ∙ unfold after in refl,
    record {
      same_block = unfold after accept_entry in refl;
      is_valid = unfold after accept_entry in refl;
      on_key = after_key.0;
      on_value = after_value;
      key_buffer = after_key.1;
      goes_on = after_offset;
      same_status = unfold after accept_entry in refl;
    },
  )
