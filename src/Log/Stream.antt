-- ===== src/Log/Stream.antt =====
-- src/log/log.rs, `add_record_to` and `add_record_pair_to`: a record of two parts, written to a file
-- that may fail. The file is a parameter, the trait `WritableFile` of src/env/env.rs as far as the log
-- uses it. A failure leaves what was written before it, and the writer's offset of then.
pub mod Memory
use pulsearc_db.Base.{
  ℕ, zero, suc, ◌+◌, ◌-◌, ◌%◌, ◌^◌, min, Bool, true, false, Bytes, [], ◌∷◌, ◌++◌, length, take,
  drop, replicate, ltb, ◌==◌, if◌then◌else◌,
}
use pulsearc_db.Result.{Result, ok, err, panicked}
use pulsearc_db.Crc32c.{Checksum, value}
use pulsearc_db.Log.{block_size, header_size, LogRecordHeader, encode_header, fragment_kind}

pub record WritableFile (D : Type 0) : Type 0 where
  pub append : D → Bytes → Result {0} Unit × D
  pub flush : D → Result {0} Unit × D

-- The file and the writer's offset in the block.
pub record Stream (D : Type 0) : Type 0 where
  pub dest : D
  pub block_offset : ℕ

-- The `?` operator on a step that changes a state.
abbrev pub and_then {ℓ} :
    {S : Type ℓ} → Result {0} Unit × S → (S → Result {0} Unit × S) → Result {0} Unit × S
and_then (ok done, s) next = next s
and_then (err status, s) next = (err status, s)
and_then (panicked, s) next = (panicked, s)

unfoldable pub pair_fragment : Bytes → Bytes → ℕ → ℕ → Bytes × Bytes
pair_fragment first second offset len =
    let first_len = min (length first - offset) len in
    if ltb offset (length first)
    then (take first_len (drop offset first), take (len - first_len) second)
    else ([], take len (drop (offset - length first) second))

module _ {D : Type 0} (c : Checksum) (file : WritableFile D) where
  -- A part that is empty is not appended.
  unfoldable pub append_part : Bytes → D → Result {0} Unit × D
  append_part [] dest = (ok tt, dest)
  append_part (b ∷ part) dest = file.append dest (b ∷ part)

  unfoldable pub append_pair : ℕ → Bytes → Bytes → D → Result {0} Unit × D
  append_pair kind first second dest =
      let header : LogRecordHeader = record {
        crc = c.extend (c.extend (value c (kind ∷ [])) first) second;
        length = (length first + length second) % 2 ^ 16;
        kind = kind;
      } in
      and_then (file.append dest (encode_header [] header)) (λ dest1.
        and_then (append_part first dest1)
          (λ dest2. and_then (append_part second dest2) (λ dest3. file.flush dest3)))

  unfoldable pub emit_pair : Stream D → ℕ → Bytes → Bytes → Result {0} Unit × Stream D
  emit_pair w kind first second =
      let (result, dest) = append_pair kind first second w.dest in
      and_then (result, record w { dest = dest })
        (λ w'. (
          ok tt,
          record w' {
            block_offset = w'.block_offset + (header_size + (length first + length second));
          },
        ))

  unfoldable pub fill_stream : Stream D → Result {0} Unit × Stream D
  fill_stream w =
      let leftover = block_size - w.block_offset in
      let (result, dest) =
        (if ltb 0 leftover then file.append w.dest (replicate leftover 0) else (ok tt, w.dest)) in
      let filled =
        and_then (result, record w { dest = dest })
          (λ w'. (ok tt, record w' { block_offset = 0 })) in
      if ltb leftover header_size then filled else (ok tt, w)

  -- The loop, for the rounds left: `left` bytes of the two parts from `offset` on.
  unfoldable pub add_pair_loop :
      ℕ → Bytes → Bytes → ℕ → ℕ → Bool → Stream D → Result {0} Unit × Stream D
  add_pair_loop zero first second offset left begin w = (ok tt, w)
  add_pair_loop (suc rounds) first second offset left begin w = and_then (fill_stream w) (λ w1.
      let avail = block_size - w1.block_offset - header_size in
      let fragment_len = min left avail in
      let end = left == fragment_len in
      let (first_fragment, second_fragment) = pair_fragment first second offset fragment_len in
      and_then (emit_pair w1 (fragment_kind begin end) first_fragment second_fragment) (λ w2.
        let more =
          add_pair_loop rounds first second (offset + fragment_len) (left - fragment_len) false
            w2 in
        if end then (ok tt, w2) else more))

  unfoldable pub add_record_pair_to : Stream D → Bytes → Bytes → Result {0} Unit × Stream D
  add_record_pair_to w first second =
      let total_len = length first + length second in
      add_pair_loop (total_len + 2) first second 0 total_len true w

  unfoldable pub add_record_to : Stream D → Bytes → Result {0} Unit × Stream D
  add_record_to w payload = add_record_pair_to w payload []
