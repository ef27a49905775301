-- ===== src/Format/Keys.antt =====
-- Internal keys are the user key and an eight-byte tag: writing and parsing undo each other.
use pulsearc_db.Base.{
  ℕ, ◌+◌, ◌-◌, ◌*◌, ◌/◌, ◌^◌, ◌≤◌, ◌<◌, Bytes, IsBytes, some, [], ◌++◌, length, take, drop, ◌≡◌,
  refl, sym, ap, ◌∙◌, arith, length-append, append_assoc, append-nil, bit_and, ltb, false, le→ltb,
  length-drop, All-drop, IsByte, take-append-drop,
}
use pulsearc_db.Base.Bits.{bit_and-mask, shifted-bit_or-low}
use pulsearc_db.Base.Slices.{take-append_length, drop-append_length}
use pulsearc_db.Coding.{get_fixed64, to_le_bytes, from_le_bytes, put_fixed64, decode_fixed64}
use pulsearc_db.Coding.Fixed.{
  get_fixed64-put_fixed64, length-to_le_bytes, decode_fixed64-to_le_bytes, to-from_le_bytes,
  from_le_bytes-lt,
}
use pulsearc_db.Base.Options.{>>=-eq-some}
use pulsearc_db.Format.{
  ValueType, deletion, value, type_tag, value_type_from_tag, ParsedInternalKey,
  pack_sequence_and_type, append_internal_key, parse_internal_key, extract_user_key,
  required_user_key, required_tag, max_sequence_number, InternalKey, encode_internal_key,
  decode_internal_key, ok,
}

-- A sequence number that the tag can hold.
abbrev pub IsSequence : ℕ → Type 0
IsSequence s = s ≤ max_sequence_number

-- The tag as arithmetic.
abbrev pub tag_of : ℕ → ValueType → ℕ
tag_of sequence t = sequence * 256 + type_tag t

-- The bytes of an internal key.
unfoldable pub key_bytes : Bytes → ℕ → Bytes
key_bytes user_key tag = user_key ++ to_le_bytes 8 tag

pub type_tag-lt : (t : ValueType) → type_tag t < 2
unfolding type_tag
type_tag-lt deletion = omega arith
type_tag-lt value = omega arith

pub pack_sequence_and_type_lem :
    (s : ℕ) (t : ValueType) → IsSequence s → pack_sequence_and_type s t ≡ some (tag_of s t)
unfolding pack_sequence_and_type
pack_sequence_and_type_lem s t h =
    ground (arith, shifted-bit_or-low 8 s (type_tag t), type_tag-lt t)

pub tag_of-lt : (s : ℕ) (t : ValueType) → IsSequence s → tag_of s t < 2 ^ 64
tag_of-lt s t h = omega (arith, type_tag-lt t)

pub append_internal_key_lem :
    (dst : Bytes) (key : ParsedInternalKey)
    → IsSequence key.sequence
    → append_internal_key dst key
      ≡ some (dst ++ key_bytes key.user_key (tag_of key.sequence key.value_type))
unfolding append_internal_key put_fixed64 key_bytes
append_internal_key_lem dst key h = rw (
  pack_sequence_and_type_lem key.sequence key.value_type h,
  append_assoc dst key.user_key (to_le_bytes 8 (tag_of key.sequence key.value_type)),
)

-- What the parts of a key are.
pub length-key_bytes : (u : Bytes) (tag : ℕ) → length (key_bytes u tag) ≡ length u + 8
unfolding key_bytes
length-key_bytes u tag =
    omega (arith, length-append u (to_le_bytes 8 tag), length-to_le_bytes 8 tag)

pub take-key_bytes :
    (u : Bytes) (tag : ℕ) → take (length (key_bytes u tag) - 8) (key_bytes u tag) ≡ u
take-key_bytes u tag =
    rw (length-key_bytes u tag, add-sub_eight (length u))
      (unfold key_bytes in take-append_length u (to_le_bytes 8 tag))
  where
    add-sub_eight : (n : ℕ) → n + 8 - 8 ≡ n
    add-sub_eight n = omega arith

pub drop-key_bytes :
    (u : Bytes) (tag : ℕ)
    → drop (length (key_bytes u tag) - 8) (key_bytes u tag) ≡ to_le_bytes 8 tag
drop-key_bytes u tag =
    rw (length-key_bytes u tag, add-sub_eight (length u))
      (unfold key_bytes in drop-append_length u (to_le_bytes 8 tag))
  where
    add-sub_eight : (n : ℕ) → n + 8 - 8 ≡ n
    add-sub_eight n = omega arith

pub required_user_key-key_bytes :
    (u : Bytes) (tag : ℕ) → required_user_key (key_bytes u tag) ≡ some u
unfolding required_user_key extract_user_key
required_user_key-key_bytes u tag = ground (arith, length-key_bytes u tag, take-key_bytes u tag)

pub required_tag-key_bytes :
    (u : Bytes) (tag : ℕ) → tag < 2 ^ 64 → required_tag (key_bytes u tag) ≡ some tag
unfolding required_tag
required_tag-key_bytes u tag h =
    rw drop-key_bytes (rw append-nil at (decode_fixed64-to_le_bytes tag [] h))

value_type_from_tag-type_tag : (t : ValueType) → value_type_from_tag (type_tag t) ≡ some t
unfolding value_type_from_tag type_tag
value_type_from_tag-type_tag deletion = refl
value_type_from_tag-type_tag value = refl

low_tag : (s : ℕ) (t : ValueType) → bit_and (tag_of s t) 0xff ≡ type_tag t
low_tag s t = omega (arith, bit_and-mask 8 0xff (tag_of s t) refl, type_tag-lt t)

long_key : (u : Bytes) (tag : ℕ) → ltb (length (key_bytes u tag)) 8 ≡ false
long_key u tag = le→ltb _ 8 (omega (arith, length-key_bytes u tag))

tail_tag : (tag : ℕ) → tag < 2 ^ 64 → decode_fixed64 (to_le_bytes 8 tag) ≡ some tag
tail_tag tag h = rw append-nil at (decode_fixed64-to_le_bytes tag [] h)

pub parse-key_bytes :
    (u : Bytes) (s : ℕ) (t : ValueType)
    → IsSequence s
    → parse_internal_key (key_bytes u (tag_of s t))
      ≡ some (record { user_key = u; sequence = s; value_type = t })
unfolding parse_internal_key
parse-key_bytes u s t h =
    rw
      (
        long_key u (tag_of s t),
        drop-key_bytes u (tag_of s t),
        tail_tag (tag_of s t) (tag_of-lt s t h),
        low_tag s t,
        value_type_from_tag-type_tag t,
        take-key_bytes u (tag_of s t),
      )
      (ground (arith, type_tag-lt t))

-- An internal key is parsed back from what `append_internal_key` writes for it, whatever the buffer
-- held before; the writer does not panic for a sequence number of 56 bits.
pub parse-append_internal_key :
    (dst : Bytes) (key : ParsedInternalKey)
    → IsSequence key.sequence
    → (bytes : Bytes) × (append_internal_key dst key ≡ some (dst ++ bytes))
      × (parse_internal_key bytes ≡ some key)
parse-append_internal_key dst key h = (
  key_bytes key.user_key (tag_of key.sequence key.value_type),
  append_internal_key_lem dst key h,
  parse-key_bytes key.user_key key.sequence key.value_type h,
)

-- A byte string of at least eight bytes is a user key and a tag.
as_key_bytes :
    (k : Bytes)
    → IsBytes k
    → 8 ≤ length k
    → k ≡ key_bytes (take (length k - 8) k) (from_le_bytes (drop (length k - 8) k))
unfolding key_bytes
as_key_bytes k hk h =
    let n = length k - 8 in
    let tail = drop n k in
    let eight : length tail ≡ 8 = length-drop n k ∙ omega arith in
    let whole = to-from_le_bytes tail (All-drop IsByte n k hk) in
    sym (ap (λ t. take n k ++ t) (rw eight at whole) ∙ take-append-drop n k)

-- A tag that has a type is made of the parts that the parser returns.
value_type_from_tag_inv :
    (tag : ℕ) (t : ValueType)
    → value_type_from_tag (bit_and tag 0xff) ≡ some t
    → tag_of (tag / 2 ^ 8) t ≡ tag
unfolding value_type_from_tag type_tag
value_type_from_tag_inv tag t e = ground (arith, bit_and-mask 8 0xff tag refl)

parse-key_bytes_inv :
    (u : Bytes) (tag : ℕ) (key : ParsedInternalKey)
    → tag < 2 ^ 64
    → parse_internal_key (key_bytes u tag) ≡ some key
    → (key.user_key ≡ u) × (key.sequence ≡ tag / 2 ^ 8) × (tag_of key.sequence key.value_type ≡ tag)
unfolding parse_internal_key
parse-key_bytes_inv u tag key h e =
    let (t, typed, made) =
      >>=-eq-some (value_type_from_tag (bit_and tag 0xff)) _
        (rw (long_key u tag, drop-key_bytes u tag, tail_tag tag h, take-key_bytes u tag) at e) in
    ground (arith, value_type_from_tag_inv tag t typed, made)

parse_internal_key_long :
    (bytes : Bytes) (key : ParsedInternalKey)
    → parse_internal_key bytes ≡ some key
    → 8 ≤ length bytes
unfolding parse_internal_key
parse_internal_key_long bytes key e = ground arith

tail-lt :
    (bytes : Bytes)
    → IsBytes bytes
    → 8 ≤ length bytes
    → from_le_bytes (drop (length bytes - 8) bytes) < 2 ^ 64
tail-lt bytes hb h =
    let n = length bytes - 8 in
    let eight : length (drop n bytes) ≡ 8 = length-drop n bytes ∙ omega arith in
    let bound = from_le_bytes-lt (drop n bytes) (All-drop IsByte n bytes hb) in rw eight at bound

-- A byte string that parses is the one that `append_internal_key` writes for the result.
pub append-parse_internal_key :
    (bytes : Bytes) (key : ParsedInternalKey)
    → IsBytes bytes
    → parse_internal_key bytes ≡ some key
    → append_internal_key [] key ≡ some bytes
append-parse_internal_key bytes key hb e =
    let n = length bytes - 8 in
    let tag = from_le_bytes (drop n bytes) in
    let shape = as_key_bytes bytes hb (parse_internal_key_long bytes key e) in
    let (user, sequence, whole) =
      parse-key_bytes_inv (take n bytes) tag key
        (tail-lt bytes hb (parse_internal_key_long bytes key e)) (rw shape at e) in
    let fits = tail-lt bytes hb (parse_internal_key_long bytes key e) in
    cc (append_internal_key_lem [] key (omega arith), user, whole, shape)

encode_internal_key_lem :
    (key : InternalKey) → encode_internal_key [] key ≡ key_bytes key.user_key key.tag
unfolding encode_internal_key put_fixed64 key_bytes
encode_internal_key_lem key = refl

tail_read : (tag : ℕ) → tag < 2 ^ 64 → get_fixed64 (to_le_bytes 8 tag) ≡ some (tag, [])
unfolding put_fixed64
tail_read tag h = rw append-nil at (get_fixed64-put_fixed64 tag [] h)

decode-key_bytes :
    (u : Bytes) (tag : ℕ)
    → tag < 2 ^ 64
    → decode_internal_key (key_bytes u tag) ≡ ok (record { user_key = u; tag = tag }, [])
unfolding decode_internal_key
decode-key_bytes u tag h =
    rw (long_key u tag, drop-key_bytes u tag, tail_read tag h, take-key_bytes u tag)

-- An internal key with a tag of 64 bits is read back from the whole of its bytes.
pub decode-encode_internal_key :
    (key : InternalKey)
    → key.tag < 2 ^ 64
    → decode_internal_key (encode_internal_key [] key) ≡ ok (key, [])
decode-encode_internal_key key h =
    rw encode_internal_key_lem (decode-key_bytes key.user_key key.tag h)
