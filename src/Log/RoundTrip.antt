-- ===== src/Log/RoundTrip.antt =====
-- The reader returns the record that the writer added.
use pulsearc_db.Base.{
  append_assoc, drop, ℕ, zero, suc, ◌+◌, ◌-◌, ◌%◌, ◌≤◌, Bool, true, false, not, Bytes, IsBytes,
  IsByte, [], ◌++◌, length, drop, ◌==◌, ◌≡◌, ◌⊎◌, inl, inr, refl, ap, sym, ◌∙◌, arith, some,
  All-take, Bool-cases, append_assoc, ==→eq, length-append, All-drop, length-drop, take-append-drop,
  none,
}
use pulsearc_db.Crc32c.{Checksum}
use pulsearc_db.Result.{ok}
use pulsearc_db.Log.{
  block_size, header_size, fragment_kind, read_physical, read_physical_loop, read_record_loop,
  add_record, read_record, LogWriter, at_end,
}
use pulsearc_db.Log.Frames.{
  padding, header_offset, fragment_size, frame, frames, add_record_loop-frames,
}
use pulsearc_db.Log.Writing.{
  fragment_size-le, length-take_fragment, length-frame, padding_aligned, IsAligned,
}
use pulsearc_db.Log.Reading.{Placed}
use pulsearc_db.Log.Rounds.{
  fills_block, still_enough, suc_add, regroup, ungroup, read_last, read_inner, frames_last,
  frames_inner, frames_long, now, behind,
}

module _ (c : Checksum) where
  module _ (rounds more_rounds off : ℕ) (pre left rest scratch : Bytes) (begin : Bool)
      (ho : off ≤ block_size) (ha : length pre % block_size ≡ off % block_size) (hl : IsBytes left)
      (clean : begin ≡ true → scratch ≡ []) where
    Placed-last : (length left == fragment_size off (length left)) ≡ true → Placed off pre left
    Placed-last end = record {
      within = ho;
      aligned = ha;
      fits = omega (
        arith,
        fragment_size-le off (length left) ho,
        ==→eq (length left) (fragment_size off (length left)) end,
      );
      payload = hl;
    }

    Placed-inner : Placed off pre (now c off left)
    Placed-inner = record {
      within = ho;
      aligned = ha;
      fits = omega (arith, fragment_size-le off (length left) ho, length-take_fragment off left);
      payload = All-take IsByte (fragment_size off (length left)) left hl;
    }

    -- What is read when a round of the writer ends the record.
    read_to_end :
        (length left == fragment_size off (length left)) ≡ true
        → read_record_loop c
            (suc rounds + more_rounds)
            (pre ++ (frames c (suc rounds) off left begin ++ rest))
            (length pre)
            scratch
            (not begin)
          ≡ (
            ok (some (scratch ++ left)),
            length pre + length (frames c (suc rounds) off left begin),
          )
    read_to_end end =
        let f = frame c (fragment_kind begin true) left in
        rw
          (
            suc_add rounds more_rounds,
            frames_last c rounds off left begin end,
            append_assoc (padding off) f rest,
            read_last c off (rounds + more_rounds) pre left rest scratch begin (Placed-last end)
                clean,
          )
          (ap (λ (k : ℕ). (ok (some (scratch ++ left)), k))
            (omega (
              arith,
              length-append (padding off) f,
              length-frame c (fragment_kind begin true) left,
            )))

    -- The bytes up to the end of a fragment that does not end the record.
    abbrev front : Bytes
    front = pre ++ (padding off ++ frame c (fragment_kind begin false) (now c off left))

    length-front :
        length front ≡ length pre + length (padding off) + (header_size + length (now c off left))
    length-front =
        let f = frame c (fragment_kind begin false) (now c off left) in
        omega (
          arith,
          length-append pre (padding off ++ f),
          length-append (padding off) f,
          length-frame c (fragment_kind begin false) (now c off left),
        )

    -- What is read when a round does not end it, from what the later rounds read.
    read_on :
        (length left == fragment_size off (length left)) ≡ false
        → read_record_loop c
            (rounds + more_rounds)
            (front ++ (behind c rounds off left ++ rest))
            (length front)
            (scratch ++ now c off left)
            true
          ≡ (
            ok (some ((scratch ++ now c off left) ++ drop (fragment_size off (length left)) left)),
            length front + length (behind c rounds off left),
          )
        → read_record_loop c
            (suc rounds + more_rounds)
            (pre ++ (frames c (suc rounds) off left begin ++ rest))
            (length pre)
            scratch
            (not begin)
          ≡ (
            ok (some (scratch ++ left)),
            length pre + length (frames c (suc rounds) off left begin),
          )
    read_on go behind_read =
        let p = now c off left in
        let n = fragment_size off (length left) in
        let f = frame c (fragment_kind begin false) p in
        let b = behind c rounds off left in
        rw
          (
            suc_add rounds more_rounds,
            frames_inner c rounds off left begin go,
            ungroup pre (padding off) f b rest,
            read_inner c off (rounds + more_rounds) pre p (b ++ rest) scratch begin Placed-inner
                clean,
            sym (regroup pre (padding off) f b rest),
            sym length-front,
            behind_read,
            append_assoc scratch p (drop n left),
            take-append-drop n left,
          )
          (ap (λ (k : ℕ). (ok (some (scratch ++ left)), k))
            (omega (
              arith,
              length-front,
              length-append (padding off) (f ++ b),
              length-append f b,
              length-frame c (fragment_kind begin false) p,
            )))

  -- From the writer's position the reader collects the whole of what is left.
  read_frames :
      (rounds more_rounds off : ℕ) (pre left rest scratch : Bytes) (begin : Bool)
      → off ≤ block_size
      → length pre % block_size ≡ off % block_size
      → IsBytes left
      → (length left + 2 ≤ rounds) ⊎ ((off ≡ block_size) × (length left + 1 ≤ rounds))
      → (begin ≡ true → scratch ≡ [])
      → read_record_loop c
          (rounds + more_rounds)
          (pre ++ (frames c rounds off left begin ++ rest))
          (length pre)
          scratch
          (not begin)
        ≡ (ok (some (scratch ++ left)), length pre + length (frames c rounds off left begin))
  read_frames zero more_rounds off pre left rest scratch begin ho ha hl enough clean =
      absurd (ground arith)
  read_frames (suc rounds) more_rounds off pre left rest scratch begin ho ha hl enough clean =
      let n = fragment_size off (length left) in
      elim (Bool-cases (length left == n)) [
        | inl end ↦
            read_to_end rounds more_rounds off pre left rest scratch begin ho ha hl clean end
        | inr go ↦
            let p = now c off left in
            let next = header_offset off + (header_size + length p) in
            let long =
              length-front rounds more_rounds off pre left rest scratch begin ho ha hl clean in
            let (filled, _) = fills_block off (length left) ho go in
            let full : next ≡ block_size = omega (arith, filled, length-take_fragment off left) in
            let fewer = still_enough off (length left) rounds ho go enough in
            read_on rounds more_rounds off pre left rest scratch begin ho ha hl clean go (
              read_frames rounds more_rounds next _ (drop n left) rest (scratch ++ p) false
                (omega (arith, full)) (omega (arith, long, padding_aligned off (length pre) ho ha))
                (All-drop IsByte n left hl) (inr (full, omega (arith, fewer, length-drop n left)))
                (λ e. absurd (ground arith)))
      ]

  -- If a writer's offset is in step with its sink and the record consists of bytes, a reader that
  -- stands where the record was added returns it, whatever was written behind it, and then stands
  -- behind its last fragment.
  pub read_record-add_record :
      (w : LogWriter) (payload rest : Bytes)
      → IsAligned w
      → IsBytes payload
      → read_record c ((add_record c w payload).sink ++ rest) (length w.sink)
        ≡ (ok (some payload), length (add_record c w payload).sink)
  unfolding add_record read_record
  read_record-add_record w payload rest at hd =
      let rounds = length payload + 2 in
      let f = frames c rounds w.block_offset payload true in
      let written_bytes = w.sink ++ (f ++ rest) in
      let extra = length w.sink + length f + length rest + 1 - rounds in
      rw (add_record_loop-frames c rounds w payload true, append_assoc w.sink f rest)
        (ap (λ n. read_record_loop c n written_bytes (length w.sink) [] false) {y = rounds + extra}
            (omega (
              arith,
              length-append w.sink (f ++ rest),
              length-append f rest,
              frames_long c rounds w.block_offset payload true at.within (inl (omega arith)),
            ))
          ∙ read_frames rounds extra w.block_offset w.sink payload rest [] true at.within at.aligned
              hd (inl (omega arith)) (λ e. refl)
          ∙ ap (λ (k : ℕ). (ok (some payload), k)) (omega (arith, length-append w.sink f)))

  -- At the end of what is written the reader reports the end of the log.
  pub read_record_end : (bytes : Bytes) → (read_record c bytes (length bytes)).0 ≡ ok none
  unfolding read_record read_record_loop read_physical read_physical_loop at_end
  read_record_end bytes = ground arith
