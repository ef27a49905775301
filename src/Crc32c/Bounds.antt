-- ===== src/Crc32c/Bounds.antt =====
-- Every step of the portable checksum stays within 32 bits.
use native.Mathlib.Nat.{pow-suc, one-le-pow, le_trans}
use pulsearc_db.Coding.Fixed.{from_le_bytes-lt}
use pulsearc_db.Base.{
  ℕ, zero, suc, ◌/◌, arith, IsU32, bit_xor, bit_and, refl, Bytes, Bool, IsBytes, IsByte, length,
  take, get_or, ◌∷◌, drop, All-drop, ◌≤◌, if◌then◌else◌, ◌+◌, ◌%◌, [], leb, ltb, ◌^◌, true, false,
  All-take, length-take, ◌≡◌,
}
use pulsearc_db.Base.Bits.{bit_xor-cancel, bit_xor-lt, bit_and-mask}
use pulsearc_db.Crc32c.{
  table_rounds, table0, make_table_next, table1, table2, table3, poly, step4, sixteens, fours, ones,
  extend_software, Checksum, from_le_bytes,
}

table_rounds-lt : (j crc : ℕ) → IsU32 crc → IsU32 (table_rounds j crc)
unfolding table_rounds
table_rounds-lt zero crc h = h
table_rounds-lt (suc j) crc h = ground (
  arith,
  table_rounds-lt j (crc / 2) (omega arith),
  table_rounds-lt j (bit_xor (crc / 2) poly)
      (bit_xor-lt 32 (crc / 2) poly (omega arith) (omega arith)),
)

table0-lt : (i : ℕ) → IsU32 i → IsU32 (table0 i)
unfolding table0
table0-lt i h = table_rounds-lt 8 i h

low_byte : (x : ℕ) → IsU32 (bit_and x 0xff)
low_byte x = omega (arith, bit_and-mask 8 0xff x refl)

make_table_next-lt :
    (previous base : ℕ → ℕ)
    → ((i : ℕ) → IsU32 i → IsU32 (previous i))
    → ((i : ℕ) → IsU32 i → IsU32 (base i))
    → (i : ℕ) → IsU32 i
    → IsU32 (make_table_next previous base i)
unfolding make_table_next
make_table_next-lt previous base hp hb i h =
    let crc = previous i in
    let small = hp i h in
    bit_xor-lt 32 (crc / 256) (base (bit_and crc 0xff)) (omega arith)
      (hb (bit_and crc 0xff) (low_byte crc))

table1-lt : (i : ℕ) → IsU32 i → IsU32 (table1 i)
unfolding table1
table1-lt = make_table_next-lt table0 table0 table0-lt table0-lt

table2-lt : (i : ℕ) → IsU32 i → IsU32 (table2 i)
unfolding table2
table2-lt = make_table_next-lt table1 table0 table1-lt table0-lt

table3-lt : (i : ℕ) → IsU32 i → IsU32 (table3 i)
unfolding table3
table3-lt = make_table_next-lt table2 table0 table2-lt table0-lt

pow_le : (n m : ℕ) → n ≤ m → 256 ^ n ≤ 256 ^ m
pow_le zero m h = one-le-pow m 256 (omega arith)
pow_le (suc n) zero h = absurd (omega arith)
pow_le (suc n) (suc m) h = omega (arith, pow-suc 256 n, pow-suc 256 m, pow_le n m (omega arith))

-- Four bytes, or fewer, make a u32.
word-lt : (input : Bytes) → IsBytes input → IsU32 (from_le_bytes (take 4 input))
word-lt input h =
    let bytes = take 4 input in
    le_trans (from_le_bytes-lt bytes (All-take IsByte 4 input h))
      (pow_le (length bytes) 4 (omega (arith, length-take 4 input)))

IsByte-lt : (input : Bytes) (i : ℕ) → IsBytes input → IsByte (get_or input i 0)
IsByte-lt [] i h = omega arith
IsByte-lt (x ∷ xs) zero h = h.0
IsByte-lt (x ∷ xs) (suc i) h = IsByte-lt xs i h.1

either-lt : (b : Bool) (x y : ℕ × ℕ) → IsU32 x.0 → IsU32 y.0 → IsU32 (if b then x else y).0
either-lt true x y hx hy = hx
either-lt false x y hx hy = hy

step4-lt :
    (crc : ℕ) (input : Bytes) (offset : ℕ)
    → IsU32 crc
    → IsBytes input
    → IsU32 (step4 crc input offset)
unfolding step4
step4-lt crc input offset hc hi =
    let word = from_le_bytes (take 4 (drop offset input)) in
    let c = bit_xor crc word in
    let fits = word-lt (drop offset input) (All-drop IsByte offset input hi) in
    let small = bit_xor-lt 32 crc word hc fits in
    bit_xor-lt 32 _ _
      (bit_xor-lt 32 _ _
        (bit_xor-lt 32 _ _ (table3-lt _ (low_byte c)) (table2-lt _ (low_byte (c / 256))))
        (table1-lt _ (low_byte (c / 65536))))
      (table0-lt _ (omega arith))

sixteens-lt :
    (rounds : ℕ) (input : Bytes) (crc offset : ℕ)
    → IsU32 crc
    → IsBytes input
    → IsU32 (sixteens rounds input (crc, offset)).0
unfolding sixteens
sixteens-lt zero input crc offset hc hi = hc
sixteens-lt (suc rounds) input crc offset hc hi =
    let h1 = step4-lt crc input offset hc hi in
    let h2 = step4-lt _ input (offset + 4) h1 hi in
    let h3 = step4-lt _ input (offset + 8) h2 hi in
    let h4 = step4-lt _ input (offset + 12) h3 hi in
    let more = sixteens-lt rounds input _ (offset + 16) h4 hi in
    either-lt (leb (offset + 16) (length input)) _ (crc, offset) more hc

fours-lt :
    (rounds : ℕ) (input : Bytes) (crc offset : ℕ)
    → IsU32 crc
    → IsBytes input
    → IsU32 (fours rounds input (crc, offset)).0
unfolding fours
fours-lt zero input crc offset hc hi = hc
fours-lt (suc rounds) input crc offset hc hi =
    let more = fours-lt rounds input _ (offset + 4) (step4-lt crc input offset hc hi) hi in
    either-lt (leb (offset + 4) (length input)) _ (crc, offset) more hc

ones-lt :
    (rounds : ℕ) (input : Bytes) (crc offset : ℕ)
    → IsU32 crc
    → IsBytes input
    → IsU32 (ones rounds input (crc, offset)).0
unfolding ones
ones-lt zero input crc offset hc hi = hc
ones-lt (suc rounds) input crc offset hc hi =
    let index = bit_xor (crc % 256) (get_or input offset 0) in
    let small =
      bit_xor-lt 8 (crc % 256) (get_or input offset 0) (omega arith) (IsByte-lt input offset hi) in
    let next =
      bit_xor-lt 32 (table0 index) (crc / 256) (table0-lt index (omega arith)) (omega arith) in
    let more = ones-lt rounds input _ (offset + 1) next hi in
    either-lt (ltb offset (length input)) _ (crc, offset) more hc

-- The portable checksum continued from a u32 over bytes is a u32.
pub extend_software-lt :
    (crc : ℕ) (input : Bytes) → IsU32 crc → IsBytes input → IsU32 (extend_software crc input)
unfolding extend_software
extend_software-lt crc input hc hi =
    let n = length input in
    let h0 = bit_xor-lt 32 crc 0xffff_ffff hc (omega arith) in
    let h1 = sixteens-lt n input _ 0 h0 hi in
    let h2 = fours-lt n input _ _ h1 hi in
    let h3 = ones-lt n input _ _ h2 hi in bit_xor-lt 32 _ 0xffff_ffff h3 (omega arith)

-- No bytes leave the checksum as it is.
pub extend_software-nil : (crc : ℕ) → IsU32 crc → extend_software crc [] ≡ crc
unfolding extend_software sixteens fours ones
extend_software-nil crc h = bit_xor-cancel 32 crc 0xffff_ffff h (omega arith)

abbrev pub software : Checksum
software = record {
  extend = extend_software;
  extend-lt = extend_software-lt;
  extend-nil = extend_software-nil;
}
