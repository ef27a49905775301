-- ===== src/Filter/Probes.antt =====
-- The probes of one key: what they set, they find again, and they clear nothing.
use pulsearc_db.Base.{
  ℕ, zero, suc, ◌+◌, ◌*◌, ◌/◌, ◌%◌, ◌^◌, ◌<◌, bit_and, bit_or, Bytes, ◌++◌, length, some, set,
  get_elem?, true, false, ◌≡◌, ◌≢◌, refl, ap, sym, ◌∙◌, arith, ==→eq, ◌==◌, Bool-cases, inl, inr,
  length-set,
}
use pulsearc_db.Base.Positions.{
  get_elem?-lt, get_elem?-set, get_elem?-set_other, get_elem?-middle, set-middle,
}
use pulsearc_db.Base.OneBit.{set_bit-set, set_bit-keeps}
use pulsearc_db.Base.Options.{>>=-eq-some}
use pulsearc_db.Filter.{remainder, or_at, add_probes, probes_match}

-- The byte at `i` has bit `k`.
unfoldable pub HasBit : Bytes → ℕ → ℕ → Type 0
HasBit array i k = (byte : ℕ) × (get_elem? array i ≡ some byte) × (bit_and byte (2 ^ k) ≢ 0)

-- An array of the same length that has every bit of the first.
pub record Keeps (array array' : Bytes) : Type 0 where
  pub same_length : length array' ≡ length array
  pub bits : (i k : ℕ) → HasBit array i k → HasBit array' i k

pub Keeps-refl : (array : Bytes) → Keeps array array
Keeps-refl array = record { same_length = refl; bits = λ i k h. h }

pub Keeps-trans : (a b c : Bytes) → Keeps a b → Keeps b c → Keeps a c
Keeps-trans a b c f g = record {
  same_length = g.same_length ∙ f.same_length;
  bits = λ i k h. g.bits i k (f.bits i k h);
}

set_bit-Keeps :
    (array : Bytes) (i byte m : ℕ)
    → get_elem? array i ≡ some byte
    → i < length array
    → Keeps array (set array i (bit_or byte m))
unfolding HasBit
set_bit-Keeps array i byte m e h = record {
  same_length = length-set array i (bit_or byte m);
  bits = λ j k (b, at, on). elim (Bool-cases (i == j)) [
    | inl same ↦
        let here = ==→eq i j same in
        let old : b ≡ byte = cc in
        (
          bit_or byte m,
          ap (get_elem? (set array i (bit_or byte m))) (sym here)
              ∙ get_elem?-set array i (bit_or byte m) h,
          set_bit-keeps k byte m (λ z. on (ap (λ t. bit_and t (2 ^ k)) old ∙ z)),
        )
    | inr other ↦
        (b, get_elem?-set_other array i j (bit_or byte m) (λ e. absurd (ground arith)) ∙ at, on)
  ];
}

-- Setting the bit of one probe in the array that stands behind `front`.
or_at_lem :
    (front array back : Bytes) (i k : ℕ)
    → i < length array
    → (array' : Bytes) × (or_at (front ++ (array ++ back)) (length front + i) (2 ^ k)
        ≡ some (front ++ (array' ++ back)))
      × Keeps array array'
      × HasBit array' i k
unfolding or_at HasBit
or_at_lem front array back i k h =
    let (byte, at) = get_elem?-lt array i h in
    let value = bit_or byte (2 ^ k) in
    (
      set array i value,
      rw (get_elem?-middle front array back i h, at, set-middle front array back i value h),
      set_bit-Keeps array i byte (2 ^ k) at h,
      (value, get_elem?-set array i value h, set_bit-set k byte),
    )

no_probe : (bits delta h : ℕ) (array : Bytes) → probes_match 0 bits delta h array ≡ some true
unfolding probes_match
no_probe bits delta h array = refl

nonzero_test : (n : ℕ) → n ≢ 0 → (n == 0) ≡ false
nonzero_test zero h = absurd (h refl)
nonzero_test (suc n) h = ground arith

remainder_lem : (h bits : ℕ) → 0 < bits → remainder h bits ≡ some (h % bits)
unfolding remainder
remainder_lem h bits full = rw (nonzero_test bits (λ z. absurd (omega arith))) refl

probe_step :
    (rounds bits delta h : ℕ) (array : Bytes)
    → 0 < bits
    → HasBit array (h % bits / 8) (h % bits % 8)
    → probes_match rounds bits delta ((h + delta) % 2 ^ 32) array ≡ some true
    → probes_match (suc rounds) bits delta h array ≡ some true
unfolding probes_match HasBit
probe_step rounds bits delta h array full (byte, at, on) later =
    rw (remainder_lem h bits full, at, nonzero_test (bit_and byte (2 ^ (h % bits % 8))) on, later)

probe_inverse :
    (rounds bits delta h : ℕ) (array : Bytes)
    → 0 < bits
    → probes_match (suc rounds) bits delta h array ≡ some true
    → HasBit array (h % bits / 8) (h % bits % 8)
      × (probes_match rounds bits delta ((h + delta) % 2 ^ 32) array ≡ some true)
unfolding probes_match HasBit
probe_inverse rounds bits delta h array full e =
    let (byte, at, rest) =
      >>=-eq-some (get_elem? array (h % bits / 8)) _ (rw (remainder_lem h bits full) at e) in
    elim (Bool-cases (bit_and byte (2 ^ (h % bits % 8)) == 0)) [
      | inl clear ↦ absurd (ground arith)
      | inr on ↦ ((byte, at, λ z. absurd (ground arith)), ground arith)
    ]

-- A match stays a match in an array that has every bit of the first.
pub probes_match-Keeps :
    (rounds bits delta h : ℕ) (array array' : Bytes)
    → 0 < bits
    → Keeps array array'
    → probes_match rounds bits delta h array ≡ some true
    → probes_match rounds bits delta h array' ≡ some true
probes_match-Keeps zero bits delta h array array' full keeps e = no_probe bits delta h array'
probes_match-Keeps (suc rounds) bits delta h array array' full keeps e =
    let (on, later) = probe_inverse rounds bits delta h array full e in
    probe_step rounds bits delta h array' full (keeps.bits (h % bits / 8) (h % bits % 8) on)
      (probes_match-Keeps rounds bits delta ((h + delta) % 2 ^ 32) array array' full keeps later)

-- The probes of one key change nothing but the array, clear no bit of it, and are all found.
pub add_probes_lem :
    (rounds bits delta h : ℕ) (front array back : Bytes)
    → 0 < bits
    → bits ≡ length array * 8
    → (array' : Bytes) × (add_probes rounds (length front) bits delta h (front ++ (array ++ back))
        ≡ some (front ++ (array' ++ back)))
      × Keeps array array'
      × (probes_match rounds bits delta h array' ≡ some true)
unfolding add_probes
add_probes_lem zero bits delta h front array back full e =
    (array, refl, Keeps-refl array, no_probe bits delta h array)
add_probes_lem (suc rounds) bits delta h front array back full e =
    let pos = h % bits in
    let (array1, set1, keeps1, on1) =
      or_at_lem front array back (pos / 8) (pos % 8) (omega arith) in
    let (array2, set2, keeps2, found2) =
      add_probes_lem rounds bits delta ((h + delta) % 2 ^ 32) front array1 back full
        (omega (arith, keeps1.same_length)) in
    (
      array2,
      rw (remainder_lem h bits full, set1, set2),
      Keeps-trans array array1 array2 keeps1 keeps2,
      probe_step rounds bits delta h array2 full (keeps2.bits (pos / 8) (pos % 8) on1) found2,
    )
