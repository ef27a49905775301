-- ===== src/Comparator/Order.antt =====
-- The bytewise order is a total order, and what the engine relies on in any comparator.
use Prim.Native.Nat.{Ordering}
use pulsearc_db.Comparator.{Comparator, compare_bytes, bytewise}
use pulsearc_db.Base.{Bytes, [], ◌∷◌, ◌≡◌, refl, arith, ◌↔◌, ap, sym, ◌∙◌}

abbrev pub reverse : Ordering → Ordering
reverse Ordering.lt = Ordering.gt
reverse Ordering.eq = Ordering.eq
reverse Ordering.gt = Ordering.lt

-- The laws of a total order, in terms of the answers of `compare`.
pub record IsTotalOrder (c : Comparator) : Type 0 where
  pub self : (a : Bytes) → c.compare a a ≡ Ordering.eq
  pub equal : (a b : Bytes) → c.compare a b ≡ Ordering.eq → a ≡ b
  pub flip : (a b : Bytes) → c.compare b a ≡ reverse (c.compare a b)
  pub trans :
      (x y z : Bytes)
      → c.compare x y ≡ Ordering.lt
      → c.compare y z ≡ Ordering.lt
      → c.compare x z ≡ Ordering.lt

pub compare_bytes_self : (a : Bytes) → compare_bytes a a ≡ Ordering.eq
unfolding compare_bytes
compare_bytes_self [] = refl
compare_bytes_self (a ∷ r) = ground (arith, compare_bytes_self r)

compare_bytes_equal : (a b : Bytes) → compare_bytes a b ≡ Ordering.eq → a ≡ b
unfolding compare_bytes
compare_bytes_equal [] [] e = refl
compare_bytes_equal [] (b ∷ s) e = cc
compare_bytes_equal (a ∷ r) [] e = cc
compare_bytes_equal (a ∷ r) (b ∷ s) e = ground (arith, compare_bytes_equal r s)

compare_bytes_flip : (a b : Bytes) → compare_bytes b a ≡ reverse (compare_bytes a b)
unfolding compare_bytes
compare_bytes_flip [] [] = refl
compare_bytes_flip [] (b ∷ s) = refl
compare_bytes_flip (a ∷ r) [] = refl
compare_bytes_flip (a ∷ r) (b ∷ s) = ground (arith, compare_bytes_flip r s)

-- The bytewise order is transitive: what lies below a string that lies below a third lies below it.
pub compare_bytes_trans :
    (x y z : Bytes)
    → compare_bytes x y ≡ Ordering.lt
    → compare_bytes y z ≡ Ordering.lt
    → compare_bytes x z ≡ Ordering.lt
unfolding compare_bytes
compare_bytes_trans [] [] z p q = cc
compare_bytes_trans (a ∷ r) [] z p q = cc
compare_bytes_trans [] (b ∷ s) [] p q = cc
compare_bytes_trans [] (b ∷ s) (c ∷ t) p q = refl
compare_bytes_trans (a ∷ r) (b ∷ s) [] p q = cc
compare_bytes_trans (a ∷ r) (b ∷ s) (c ∷ t) p q = ground (arith, compare_bytes_trans r s t)

pub bytewise-IsTotalOrder : IsTotalOrder bytewise
bytewise-IsTotalOrder = record {
  self = compare_bytes_self;
  equal = compare_bytes_equal;
  flip = compare_bytes_flip;
  trans = compare_bytes_trans;
}

-- Two byte strings compare equal exactly if they are the same, and exchanging them turns the answer
-- around.
pub compare_bytes_total :
    (a b : Bytes)
    → ((compare_bytes a b ≡ Ordering.eq) ↔ (a ≡ b))
      × (compare_bytes b a ≡ reverse (compare_bytes a b))
compare_bytes_total a b = (
  (compare_bytes_equal a b, λ e. ap (compare_bytes a) (sym e) ∙ compare_bytes_self a),
  compare_bytes_flip a b,
)
