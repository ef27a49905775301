-- ===== src/Crc32c.antt =====
-- src/crc32c/crc32c.rs: the checksum, its tables, and the mask that stored checksums carry.
-- `extend` runs a CRC32C instruction where the processor has one, and `extend_software` elsewhere.
-- Clients take the checksum as the interface `Checksum`, which `software` fills with the portable
-- code; the instruction is not code of the repository.
pub mod Bounds
mod Examples
use pulsearc_db.Base.{
  ℕ, zero, suc, ◌+◌, ◌-◌, ◌*◌, ◌/◌, ◌%◌, ◌^◌, ◌<◌, bit_xor, bit_and, Bytes, IsU32, IsBytes, length,
  take, drop, get_or, leb, ltb, ◌==◌, if◌then◌else◌, [], ◌≡◌, arith,
}
use pulsearc_db.Coding.{from_le_bytes}

-- What the record log and the tables use of the checksum.
pub record Checksum : Type 0 where
  pub extend : ℕ → Bytes → ℕ
  pub extend-lt : (crc : ℕ) (bytes : Bytes) → IsU32 crc → IsBytes bytes → IsU32 (extend crc bytes)
  pub extend-nil : (crc : ℕ) → IsU32 crc → extend crc [] ≡ crc

abbrev poly : ℕ
poly = 0x82f63b78

abbrev mask_delta : ℕ
mask_delta = 0xa282ead8

-- The inner loop of `make_table0`, for the rounds left.
unfoldable pub table_rounds : ℕ → ℕ → ℕ
table_rounds zero crc = crc
table_rounds (suc j) crc =
    table_rounds j (if bit_and crc 1 == 0 then crc / 2 else bit_xor (crc / 2) poly)

-- A table is a function of the index.
unfoldable pub table0 : ℕ → ℕ
table0 i = table_rounds 8 i

unfoldable pub make_table_next : (ℕ → ℕ) → (ℕ → ℕ) → ℕ → ℕ
make_table_next previous base i =
    let crc = previous i in bit_xor (crc / 256) (base (bit_and crc 0xff))

unfoldable pub table1 : ℕ → ℕ
table1 = make_table_next table0 table0

unfoldable pub table2 : ℕ → ℕ
table2 = make_table_next table1 table0

unfoldable pub table3 : ℕ → ℕ
table3 = make_table_next table2 table0

unfoldable pub step4 : ℕ → Bytes → ℕ → ℕ
step4 crc input offset =
    let c = bit_xor crc (from_le_bytes (take 4 (drop offset input))) in
    bit_xor
      (bit_xor (bit_xor (table3 (bit_and c 0xff)) (table2 (bit_and (c / 256) 0xff)))
        (table1 (bit_and (c / 65536) 0xff)))
      (table0 (c / 16777216))

-- The three loops, each for the rounds that are left and at most `length input`.
unfoldable pub sixteens : ℕ → Bytes → ℕ × ℕ → ℕ × ℕ
sixteens zero input s = s
sixteens (suc rounds) input (crc, offset) =
    let c1 = step4 crc input offset in
    let c2 = step4 c1 input (offset + 4) in
    let c3 = step4 c2 input (offset + 8) in
    let c4 = step4 c3 input (offset + 12) in
    let more = sixteens rounds input (c4, offset + 16) in
    if leb (offset + 16) (length input) then more else (crc, offset)

unfoldable pub fours : ℕ → Bytes → ℕ × ℕ → ℕ × ℕ
fours zero input s = s
fours (suc rounds) input (crc, offset) =
    let more = fours rounds input (step4 crc input offset, offset + 4) in
    if leb (offset + 4) (length input) then more else (crc, offset)

unfoldable pub ones : ℕ → Bytes → ℕ × ℕ → ℕ × ℕ
ones zero input s = s
ones (suc rounds) input (crc, offset) =
    let index = bit_xor (crc % 256) (get_or input offset 0) in
    let more = ones rounds input (bit_xor (table0 index) (crc / 256), offset + 1) in
    if ltb offset (length input) then more else (crc, offset)

unfoldable pub extend_software : ℕ → Bytes → ℕ
extend_software init_crc input =
    let n = length input in
    let s1 = sixteens n input (bit_xor init_crc 0xffff_ffff, 0) in
    let s2 = fours n input s1 in let s3 = ones n input s2 in bit_xor s3.0 0xffff_ffff

-- `value` is the checksum from the start.
abbrev pub value : Checksum → Bytes → ℕ
value c bytes = c.extend 0 bytes

-- `rotate_right` of a u32.
unfoldable pub rotate_right : ℕ → ℕ → ℕ
rotate_right x k = x / 2 ^ k + x % 2 ^ k * 2 ^ (32 - k)

unfoldable pub mask : ℕ → ℕ
unfolding rotate_right
mask crc = (rotate_right crc 15 + mask_delta) % 2 ^ 32

unfoldable pub unmask : ℕ → ℕ
unfolding rotate_right
unmask masked_crc = rotate_right ((masked_crc + 2 ^ 32 - mask_delta) % 2 ^ 32) 17

-- Unmasking the mask of a u32 gives it back.
pub unmask-mask : (crc : ℕ) → IsU32 crc → unmask (mask crc) ≡ crc
unfolding mask unmask
unmask-mask crc h = omega arith

pub mask-unmask : (m : ℕ) → IsU32 m → mask (unmask m) ≡ m
unfolding mask unmask
mask-unmask m h = omega arith

pub mask-lt : (crc : ℕ) → IsU32 (mask crc)
unfolding mask
mask-lt crc = omega arith
