-- ===== src/Format/KeyOrder.antt =====
-- The order of internal keys: by user key, and the newer entry of one user key first.
use Prim.Native.Nat.{compare, Ordering}
use pulsearc_db.Base.{ℕ, Bytes, some, ◌≡◌, arith, ◌∙◌, ap}
use pulsearc_db.Comparator.{Comparator, then_with}
use pulsearc_db.Comparator.Order.{reverse, IsTotalOrder}
use pulsearc_db.Format.{ValueType, type_tag, ParsedInternalKey, internal_compare}
use pulsearc_db.Format.Keys.{
  IsSequence, key_bytes, tag_of, tag_of-lt, required_user_key-key_bytes, required_tag-key_bytes,
  type_tag-lt,
}

-- The encoding of a parsed key.
abbrev pub encoded : ParsedInternalKey → Bytes
encoded k = key_bytes k.user_key (tag_of k.sequence k.value_type)

-- The order as the documentation of the format has it: the user key ascending, then the sequence
-- number descending, then the type descending.
unfoldable pub key_order : Comparator → ParsedInternalKey → ParsedInternalKey → Ordering
key_order user a b = then_with (user.compare a.user_key b.user_key) (
    then_with (compare b.sequence a.sequence)
      (compare (type_tag b.value_type) (type_tag a.value_type)))

compare-tag_of :
    (s s' : ℕ) (t t' : ValueType)
    → compare (tag_of s t) (tag_of s' t')
      ≡ then_with (compare s s') (compare (type_tag t) (type_tag t'))
compare-tag_of s s' t t' = ground (arith, type_tag-lt t, type_tag-lt t')

-- On encoded keys with sequence numbers of 56 bits the comparator does not panic, and its answer is
-- the documented order: the user key ascending, then the sequence number and the type descending.
pub internal_compare-encoded :
    (user : Comparator) (a b : ParsedInternalKey)
    → IsSequence a.sequence
    → IsSequence b.sequence
    → internal_compare user (encoded a) (encoded b) ≡ some (key_order user a b)
unfolding internal_compare key_order
internal_compare-encoded user a b ha hb = rw (
  required_user_key-key_bytes a.user_key (tag_of a.sequence a.value_type),
  required_user_key-key_bytes b.user_key (tag_of b.sequence b.value_type),
  required_tag-key_bytes a.user_key (tag_of a.sequence a.value_type)
      (tag_of-lt a.sequence a.value_type ha),
  required_tag-key_bytes b.user_key (tag_of b.sequence b.value_type)
      (tag_of-lt b.sequence b.value_type hb),
  compare-tag_of b.sequence a.sequence b.value_type a.value_type,
)

pub key_order_equal :
    (user : Comparator) (a b : ParsedInternalKey)
    → IsTotalOrder user
    → key_order user a b ≡ Ordering.eq
    → a ≡ b
unfolding key_order type_tag
key_order_equal user a b o e = ground (arith, o.equal a.user_key b.user_key)

pub key_order_flip :
    (user : Comparator) (a b : ParsedInternalKey)
    → IsTotalOrder user
    → key_order user b a ≡ reverse (key_order user a b)
unfolding key_order
key_order_flip user a b o = ground (arith, o.flip a.user_key b.user_key)

pub key_order_trans :
    (user : Comparator) (a b c : ParsedInternalKey)
    → IsTotalOrder user
    → key_order user a b ≡ Ordering.lt
    → key_order user b c ≡ Ordering.lt
    → key_order user a c ≡ Ordering.lt
unfolding key_order
key_order_trans user a b c o p q = ground (
  arith,
  o.equal a.user_key b.user_key,
  o.equal b.user_key c.user_key,
  o.trans a.user_key b.user_key c.user_key,
)

answer :
    (user : Comparator) (a b : ParsedInternalKey) (o : Ordering)
    → IsSequence a.sequence
    → IsSequence b.sequence
    → internal_compare user (encoded a) (encoded b) ≡ some o
    → key_order user a b ≡ o
answer user a b o ha hb e = let told = internal_compare-encoded user a b ha hb in cc

-- Over a user comparator that is a total order, the comparator of internal keys is transitive on
-- encoded keys with sequence numbers of 56 bits.
pub internal_compare_trans :
    (user : Comparator) (a b c : ParsedInternalKey)
    → IsTotalOrder user
    → IsSequence a.sequence
    → IsSequence b.sequence
    → IsSequence c.sequence
    → internal_compare user (encoded a) (encoded b) ≡ some Ordering.lt
    → internal_compare user (encoded b) (encoded c) ≡ some Ordering.lt
    → internal_compare user (encoded a) (encoded c) ≡ some Ordering.lt
internal_compare_trans user a b c o ha hb hc p q =
    internal_compare-encoded user a c ha hc
    ∙ ap some (
        key_order_trans user a b c o (answer user a b Ordering.lt ha hb p)
          (answer user b c Ordering.lt hb hc q))

-- Over a user comparator that is a total order, the comparator of internal keys takes two encoded keys
-- with sequence numbers of 56 bits for equal only if they are the same key.
pub internal_compare_equal :
    (user : Comparator) (a b : ParsedInternalKey)
    → IsTotalOrder user
    → IsSequence a.sequence
    → IsSequence b.sequence
    → internal_compare user (encoded a) (encoded b) ≡ some Ordering.eq
    → a ≡ b
internal_compare_equal user a b o ha hb e =
    key_order_equal user a b o (answer user a b Ordering.eq ha hb e)
