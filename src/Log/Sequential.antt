-- ===== src/Log/Sequential.antt =====
-- src/log/log.rs, `LogSequentialReader`: the reader that takes a log from a file block by block.
-- The file is a parameter, the trait `SequentialFile` of src/env/env.rs as far as the log uses it: a
-- read returns at most as many bytes as it is asked for, and none at the end, so that the offset in a
-- block lies below the block size.
use pulsearc_db.Base.{
  ℕ, zero, suc, ◌+◌, ◌-◌, Bool, true, false, ◌&&◌, Bytes, [], length, ltb, leb, ◌==◌, if◌then◌else◌,
  Option, none, some,
}
use pulsearc_db.Result.{Result, ok, err, panicked}
use pulsearc_db.Crc32c.{Checksum}
use pulsearc_db.Log.{
  block_size, header_size, kind_zero, record_at, take_fragment, more, done, at_end,
}

pub record SequentialFile (F : Type 0) : Type 0 where
  pub read : F → ℕ → Result Bytes × F

pub record LogSequentialReader (F : Type 0) : Type 0 where
  pub file : F
  pub block : Bytes
  pub block_offset : ℕ
  pub eof : Bool

abbrev pub new_sequential : {F : Type 0} → F → LogSequentialReader F
new_sequential file = record { file = file; block = []; block_offset = 0; eof = false }

module _ {F : Type 0} (c : Checksum) (files : SequentialFile F) where
  unfoldable pub fill_block : LogSequentialReader F → Result {0} Unit × LogSequentialReader F
  fill_block r =
      let (result, file) = files.read r.file block_size in
      let filled : Result {0} Unit × LogSequentialReader F = elim result [
        | err status ↦ (err status, record r { file = file })
        | panicked ↦ (panicked, record r { file = file })
        | ok block ↦ (
          ok tt,
          record { file = file; block = block; block_offset = 0; eof = length block == 0 },
        )
      ] in
      if r.eof then (ok tt, r) else filled

  -- The next block, where the last one has been read to its end.
  unfoldable pub next_block : LogSequentialReader F → Result {0} Unit × LogSequentialReader F
  next_block r = if leb (length r.block) r.block_offset then fill_block r else (ok tt, r)

  -- For the rounds left, which the caller chooses: a file has no length. `panicked` at their end is no
  -- outcome of the source.
  unfoldable pub sequential_physical :
      ℕ → LogSequentialReader F → Result (Option (ℕ × Bytes)) × LogSequentialReader F
  sequential_physical zero r = (panicked, r)
  sequential_physical (suc rounds) r =
      let (filled, r1) = next_block r in
      let leftover = length r1.block - r1.block_offset in
      let skip = sequential_physical rounds (record r1 { block_offset = length r1.block }) in
      elim filled [
        | err status ↦ (err status, r1)
        | panicked ↦ (panicked, r1)
        | ok _ ↦
            if leb (length r.block) r.block_offset && r1.eof
            then (ok none, r1)
            else if ltb leftover header_size
            then (if ltb (length r1.block) block_size
                then (ok none, record r1 { eof = true })
                else skip)
            else elim (record_at c r1.block r1.block_offset) [
              | err status ↦ (err status, r1)
              | panicked ↦ (panicked, r1)
              | ok (header, payload) ↦
                  let r2 = record r1 {
                    block_offset = r1.block_offset + (header_size + header.length);
                  } in
                  let again = sequential_physical rounds r2 in
                  if header.kind == kind_zero && header.length == 0
                  then again
                  else (ok (some (header.kind, payload)), r2)
            ]
      ]

  -- `read_record`, with as many rounds for each fragment as for the record.
  unfoldable pub sequential_record_loop :
      ℕ → ℕ → LogSequentialReader F → Bytes → Bool → Result (Option Bytes) × LogSequentialReader F
  sequential_record_loop zero fuel r scratch in_fragmented = (panicked, r)
  sequential_record_loop (suc rounds) fuel r scratch in_fragmented =
      let (result, next) = sequential_physical fuel r in
      elim result [
        | err status ↦ (err status, next)
        | panicked ↦ (panicked, next)
        | ok none ↦ (at_end in_fragmented, next)
        | ok (some (kind, fragment)) ↦ elim (take_fragment kind fragment scratch in_fragmented) [
          | done answer ↦ (answer, next)
          | more scratch' ↦ sequential_record_loop rounds fuel next scratch' true
        ]
      ]

  unfoldable pub sequential_record :
      ℕ → LogSequentialReader F → Result (Option Bytes) × LogSequentialReader F
  sequential_record fuel r = sequential_record_loop fuel fuel r [] false
