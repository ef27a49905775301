-- ===== src/Format.antt =====
-- src/format/dbformat.rs and src/format/internal_key.rs: internal keys, their order, lookup keys.
-- `none` is the source's `None` in `parse_internal_key`, `extract_user_key`, `extract_value_type` and
-- `value_type_from_tag`; elsewhere it is a panic, of an assertion, an `expect` or an index.
pub mod Keys
pub mod KeyOrder
pub mod Lookup
mod Examples
use Prim.Native.Nat.{compare, Ordering}
use pulsearc_db.Base.{
  ℕ, zero, suc, ◌+◌, ◌-◌, ◌*◌, ◌/◌, ◌%◌, ◌^◌, bit_and, bit_or, Bytes, Option, none, some, [], ◌∷◌,
  ◌++◌, length, take, drop, ltb, leb, ◌==◌, ◌&&◌, if◌then◌else◌,
}
use pulsearc_db.Base.Options.{◌>>=◌}
use pulsearc_db.Coding.{decode_fixed64, put_fixed64, put_varint32, get_fixed64}
use pulsearc_db.Comparator.{Comparator, then_with}
use pulsearc_db.Result.{Result, ok, err}
use pulsearc_db.Status.{corruption, text}

abbrev pub num_levels : ℕ
num_levels = 7

abbrev pub l0_compaction_trigger : ℕ
l0_compaction_trigger = 4

abbrev pub max_sequence_number : ℕ
max_sequence_number = 2 ^ 56 - 1

pub data ValueType : Type 0 where
  deletion value : ValueType

-- `value_type as u64`
unfoldable pub type_tag : ValueType → ℕ
type_tag deletion = 0
type_tag value = 1

abbrev pub value_type_for_seek : ValueType
value_type_for_seek = value

unfoldable pub value_type_from_tag : ℕ → Option ValueType
value_type_from_tag tag = if tag == 0 then some deletion else if tag == 1 then some value else none

pub record ParsedInternalKey : Type 0 where
  pub user_key : Bytes
  pub sequence : ℕ
  pub value_type : ValueType

unfoldable pub encoding_len : ParsedInternalKey → ℕ
encoding_len key = length key.user_key + 8

-- `(sequence << 8) | value_type as u64`, behind the assertion on the sequence.
unfoldable pub pack_sequence_and_type : ℕ → ValueType → Option ℕ
pack_sequence_and_type sequence value_type =
    if leb sequence max_sequence_number
    then some (bit_or (sequence * 2 ^ 8) (type_tag value_type))
    else none

unfoldable pub append_internal_key : Bytes → ParsedInternalKey → Option Bytes
append_internal_key dst key = pack_sequence_and_type key.sequence key.value_type >>= λ tag.
    some (put_fixed64 (dst ++ key.user_key) tag)

-- `tag & 0xff` and `tag >> 8`.
unfoldable pub parse_internal_key : Bytes → Option ParsedInternalKey
parse_internal_key internal_key =
    let split = length internal_key - 8 in
    if ltb (length internal_key) 8
    then none
    else decode_fixed64 (drop split internal_key) >>= λ tag.
        value_type_from_tag (bit_and tag 0xff) >>= λ t.
        some (record { user_key = take split internal_key; sequence = tag / 2 ^ 8; value_type = t })

unfoldable pub extract_user_key : Bytes → Option Bytes
extract_user_key internal_key =
    if ltb (length internal_key) 8 then none else some (take (length internal_key - 8) internal_key)

unfoldable pub extract_value_type : Bytes → Option ValueType
extract_value_type internal_key =
    if ltb (length internal_key) 8
    then none
    else decode_fixed64 (drop (length internal_key - 8) internal_key) >>= λ tag.
        value_type_from_tag (bit_and tag 0xff)

-- The panic on a short key is `none` here, so the function is that of the `Option` it unwraps.
unfoldable pub required_user_key : Bytes → Option Bytes
required_user_key internal_key = extract_user_key internal_key

-- The tag in the last eight bytes of a key.
unfoldable pub required_tag : Bytes → Option ℕ
required_tag internal_key = decode_fixed64 (drop (length internal_key - 8) internal_key)

-- `InternalKeyComparator`, over the user's comparator.
module _ (user : Comparator) where
  unfoldable pub internal_compare : Bytes → Bytes → Option Ordering
  internal_compare a b = required_user_key a >>= λ user_a. required_user_key b >>= λ user_b.
      required_tag a >>= λ anum.
      required_tag b >>= λ bnum. some (then_with (user.compare user_a user_b) (compare bnum anum))

  -- The replacement `tmp` of a user key, kept only if it is shorter and above the key.
  unfoldable pub keep_shorter : Bytes → Bytes → Bytes → Option Bytes
  keep_shorter key user_key tmp =
      let longer =
        (pack_sequence_and_type max_sequence_number value_type_for_seek >>= λ tag.
        some (put_fixed64 tmp tag)) in
      if ltb (length tmp) (length user_key)
      then elim (user.compare user_key tmp) [ Ordering.lt ↦ longer | _ ↦ some key ]
      else some key

  unfoldable pub internal_separator : Bytes → Bytes → Option Bytes
  internal_separator start limit = required_user_key start >>= λ user_start.
      required_user_key limit >>= λ user_limit.
      keep_shorter start user_start (user.find_shortest_separator user_start user_limit)

  unfoldable pub internal_successor : Bytes → Option Bytes
  internal_successor key = required_user_key key >>= λ user_key.
      keep_shorter key user_key (user.find_short_successor user_key)

pub record LookupKey : Type 0 where
  pub rep : Bytes
  pub kstart : ℕ

unfoldable pub lookup_key : Bytes → ℕ → Option LookupKey
lookup_key user_key sequence =
    let prefix = put_varint32 [] ((length user_key + 8) % 2 ^ 32) in
    pack_sequence_and_type sequence value_type_for_seek >>= λ tag.
    some (record { rep = put_fixed64 (prefix ++ user_key) tag; kstart = length prefix })

unfoldable pub memtable_key : LookupKey → Bytes
memtable_key k = k.rep

unfoldable pub internal_key : LookupKey → Bytes
internal_key k = drop k.kstart k.rep

unfoldable pub lookup_user_key : LookupKey → Bytes
lookup_user_key k = drop k.kstart (take (length k.rep - 8) k.rep)

-- `InternalKey` of internal_key.rs, which keeps the tag as it is.
pub record InternalKey : Type 0 where
  pub user_key : Bytes
  pub tag : ℕ

unfoldable pub encode_internal_key : Bytes → InternalKey → Bytes
encode_internal_key dst key = put_fixed64 (dst ++ key.user_key) key.tag

-- The whole input is the key; what is left of it is returned beside.
unfoldable pub decode_internal_key : Bytes → Result (InternalKey × Bytes)
decode_internal_key input =
    let n = length input - 8 in
    let missing = corruption (text "InternalKey: missing tag") in
    if ltb (length input) 8
    then err (corruption (text "InternalKey: too short"))
    else elim (get_fixed64 (drop n input)) [
      | none ↦ err missing
      | some (tag, rest) ↦ ok (record { user_key = take n input; tag = tag }, rest)
    ]
