-- ===== src/Log/Rounds.antt =====
-- One round of the writer, and of the reader, over a record's fragments.
use pulsearc_db.Base.Slices.{take_all}
use pulsearc_db.Base.{
  append_assoc, append-nil, drop, ℕ, zero, suc, ◌+◌, ◌-◌, ◌≤◌, Bool, true, false, not, Bytes,
  IsByte, [], ◌++◌, length, take, drop, ◌==◌, ◌≡◌, ◌≢◌, ◌⊎◌, inl, inr, refl, ap, ◌∙◌, arith, some,
  Bool-cases, append_assoc, length-append, length-drop,
}
use pulsearc_db.Crc32c.{Checksum}
use pulsearc_db.Result.{ok}
use pulsearc_db.Log.{
  block_size, header_size, fragment_kind, read_physical, read_physical_loop, read_record_loop, more,
  done, take_fragment,
}
use pulsearc_db.Log.Frames.{padding, header_offset, fragment_size, frame, frames}
use pulsearc_db.Log.Writing.{length-take_fragment, length-frame}
use pulsearc_db.Log.Reading.{Placed, written, read_frame}

fragment_kind_range :
    (begin end : Bool) → IsByte (fragment_kind begin end) × (fragment_kind begin end ≢ 0)
unfolding fragment_kind
fragment_kind_range begin end = ground arith

-- A fragment of the writer extends what the reader has collected, and ends it or not.
take_fragment_last :
    (begin : Bool) (p scratch : Bytes)
    → (begin ≡ true → scratch ≡ [])
    → take_fragment (fragment_kind begin true) p scratch (not begin)
      ≡ done (ok (some (scratch ++ p)))
unfolding take_fragment fragment_kind
take_fragment_last true p scratch h = rw (h refl)
take_fragment_last false p scratch h = refl

take_fragment_inner :
    (begin : Bool) (p scratch : Bytes)
    → (begin ≡ true → scratch ≡ [])
    → take_fragment (fragment_kind begin false) p scratch (not begin) ≡ more (scratch ++ p)
unfolding take_fragment fragment_kind
take_fragment_inner true p scratch h = rw (h refl)
take_fragment_inner false p scratch h = refl

-- A record that does not end in the block fills it.
pub fills_block :
    (off n : ℕ)
    → off ≤ block_size
    → (n == fragment_size off n) ≡ false
    → (header_offset off + (header_size + fragment_size off n) ≡ block_size)
      × (fragment_size off n ≤ n)
unfolding fragment_size header_offset
fills_block off n h e = ground arith

-- Every round but the one that only fills up a full block takes a byte of the record.
pub still_enough :
    (off n rounds : ℕ)
    → off ≤ block_size
    → (n == fragment_size off n) ≡ false
    → (n + 2 ≤ suc rounds) ⊎ ((off ≡ block_size) × (n + 1 ≤ suc rounds))
    → n - fragment_size off n + 1 ≤ rounds
unfolding fragment_size header_offset
still_enough off n rounds h e (inl k) = ground arith
still_enough off n rounds h e (inr k) = ground arith

pub suc_add : (m n : ℕ) → suc m + n ≡ suc (m + n)
suc_add m n = omega arith

-- The bytes up to the fragment and behind it, in two groupings.
pub regroup :
    (pre pad f b rest : Bytes)
    → (pre ++ (pad ++ f)) ++ (b ++ rest) ≡ pre ++ (pad ++ (f ++ (b ++ rest)))
regroup pre pad f b rest =
    rw (append_assoc pre (pad ++ f) (b ++ rest), append_assoc pad f (b ++ rest))

pub ungroup :
    (pre pad f b rest : Bytes)
    → pre ++ ((pad ++ (f ++ b)) ++ rest) ≡ pre ++ (pad ++ (f ++ (b ++ rest)))
ungroup pre pad f b rest = rw (append_assoc pad (f ++ b) rest, append_assoc f b rest)

module _ (c : Checksum) where
  module _ (off rounds : ℕ) (pre p rest scratch : Bytes) (begin : Bool) (at : Placed off pre p)
      (clean : begin ≡ true → scratch ≡ []) where
    read_one :
        (end : Bool)
        → read_physical c (written c off (fragment_kind begin end) pre p rest) (length pre) ≡ (
          ok (some (fragment_kind begin end, p)),
          length pre + length (padding off) + (header_size + length p),
        )
    unfolding read_physical
    read_one end =
        let kind = fragment_kind begin end in
        let (hk, nz) = fragment_kind_range begin end in
        let bytes = written c off kind pre p rest in
        ap (λ (n : ℕ). read_physical_loop c n bytes (length pre)) {y = suc (suc (length bytes))}
          (omega arith)
        ∙ read_frame c off kind pre p rest at hk nz (length bytes)

    pub read_last :
        read_record_loop c
          (suc rounds)
          (written c off (fragment_kind begin true) pre p rest)
          (length pre)
          scratch
          (not begin)
        ≡ (ok (some (scratch ++ p)), length pre + length (padding off) + (header_size + length p))
    unfolding read_record_loop
    read_last =
        let at_last = read_one true in
        let kept = take_fragment_last begin p scratch clean in ground arith

    pub read_inner :
        read_record_loop c
          (suc rounds)
          (written c off (fragment_kind begin false) pre p rest)
          (length pre)
          scratch
          (not begin)
        ≡ read_record_loop c rounds
            (written c off (fragment_kind begin false) pre p rest)
            (length pre + length (padding off) + (header_size + length p))
            (scratch ++ p)
            true
    unfolding read_record_loop
    read_inner =
        let at_inner = read_one false in
        let kept = take_fragment_inner begin p scratch clean in ground arith

  -- The bytes of the frames, when the record ends in this block and when it does not.
  pub frames_last :
      (rounds off : ℕ) (left : Bytes) (begin : Bool)
      → (length left == fragment_size off (length left)) ≡ true
      → frames c (suc rounds) off left begin
        ≡ padding off ++ frame c (fragment_kind begin true) left
  unfolding frames
  frames_last rounds off left begin end =
      rw (end, take_all (fragment_size off (length left)) left (ground arith), append-nil)

  abbrev pub now : ℕ → Bytes → Bytes
  now off left = take (fragment_size off (length left)) left

  abbrev pub behind : ℕ → ℕ → Bytes → Bytes
  behind rounds off left =
      frames c rounds (header_offset off + (header_size + length (now off left)))
        (drop (fragment_size off (length left)) left) false

  pub frames_inner :
      (rounds off : ℕ) (left : Bytes) (begin : Bool)
      → (length left == fragment_size off (length left)) ≡ false
      → frames c (suc rounds) off left begin
        ≡ padding off
          ++ (frame c (fragment_kind begin false) (now off left) ++ behind rounds off left)
  unfolding frames
  frames_inner rounds off left begin go = rw go

  -- The frames are longer than the record.
  pub frames_long :
      (rounds off : ℕ) (left : Bytes) (begin : Bool)
      → off ≤ block_size
      → (length left + 2 ≤ rounds) ⊎ ((off ≡ block_size) × (length left + 1 ≤ rounds))
      → length left + header_size ≤ length (frames c rounds off left begin)
  frames_long zero off left begin ho enough = absurd (ground arith)
  frames_long (suc rounds) off left begin ho enough =
      let n = fragment_size off (length left) in
      elim (Bool-cases (length left == n)) [
        | inl end ↦
            let f = frame c (fragment_kind begin true) left in
            rw (frames_last rounds off left begin end) (
              omega (
                arith,
                length-append (padding off) f,
                length-frame c (fragment_kind begin true) left,
              ))
        | inr go ↦
            let p = now off left in
            let f = frame c (fragment_kind begin false) p in
            let b = behind rounds off left in
            let (full, _) = fills_block off (length left) ho go in
            let full' : header_offset off + (header_size + length p) ≡ block_size =
              omega (arith, full, length-take_fragment off left) in
            let shorter : length (drop n left) + 1 ≤ rounds =
              omega
                (arith, still_enough off (length left) rounds ho go enough, length-drop n left) in
            let behind_long =
              frames_long rounds (header_offset off + (header_size + length p)) (drop n left) false
                (omega (arith, full')) (inr (full', shorter)) in
            rw (frames_inner rounds off left begin go) (
              omega (
                arith,
                length-append (padding off) (f ++ b),
                length-append f b,
                length-frame c (fragment_kind begin false) p,
                length-take_fragment off left,
                length-drop n left,
                behind_long,
              ))
      ]
