-- ===== src/Base/Positions.antt =====
-- Reading and writing one position of a list.
use Prim.Native.Nat.{ℕ, zero, suc, ◌+◌, ◌<◌}
use mathlib.Core.Path.{◌≡◌, refl, ap, ◌∙◌}
use mathlib.Core.Logic.{◌≢◌}
use mathlib.Core.List.{List, [], ◌∷◌, ◌++◌}
use mathlib.Core.Option.{some}
use native.Mathlib.Omega.{arith}
use pulsearc_db.Base.Lists.{length, get_elem?, set}

pub get_elem?-lt {ℓ} :
    {A : Type ℓ} (xs : List A) (i : ℕ) → i < length xs → (a : A) × (get_elem? xs i ≡ some a)
get_elem?-lt [] i h = absurd (omega arith)
get_elem?-lt (x ∷ xs) zero h = (x, refl)
get_elem?-lt (x ∷ xs) (suc i) h = get_elem?-lt xs i (omega arith)

pub get_elem?-set {ℓ} :
    {A : Type ℓ} (xs : List A) (i : ℕ) (a : A) → i < length xs → get_elem? (set xs i a) i ≡ some a
get_elem?-set [] i a h = absurd (omega arith)
get_elem?-set (x ∷ xs) zero a h = refl
get_elem?-set (x ∷ xs) (suc i) a h = get_elem?-set xs i a (omega arith)

pub get_elem?-set_other {ℓ} :
    {A : Type ℓ} (xs : List A) (i j : ℕ) (a : A) → i ≢ j → get_elem? (set xs i a) j ≡ get_elem? xs j
get_elem?-set_other [] i j a h = refl
get_elem?-set_other (x ∷ xs) zero zero a h = absurd (h refl)
get_elem?-set_other (x ∷ xs) zero (suc j) a h = refl
get_elem?-set_other (x ∷ xs) (suc i) zero a h = refl
get_elem?-set_other (x ∷ xs) (suc i) (suc j) a h = get_elem?-set_other xs i j a (λ e. h (ap suc e))

-- Positions in the middle of a byte string.
pub get_elem?-middle {ℓ} :
    {A : Type ℓ} (front xs back : List A) (i : ℕ)
    → i < length xs
    → get_elem? (front ++ (xs ++ back)) (length front + i) ≡ get_elem? xs i
get_elem?-middle (y ∷ front) xs back i h =
    ap (get_elem? (y ∷ (front ++ (xs ++ back)))) {y = suc (length front + i)} (omega arith)
    ∙ get_elem?-middle front xs back i h
get_elem?-middle [] xs back i h = ap (get_elem? (xs ++ back)) {y = i} (omega arith) ∙ inside xs i h
  where
    inside : (ys : List _) (k : ℕ) → k < length ys → get_elem? (ys ++ back) k ≡ get_elem? ys k
    inside [] k h = absurd (omega arith)
    inside (y ∷ ys) zero h = refl
    inside (y ∷ ys) (suc k) h = inside ys k (omega arith)

pub set-middle {ℓ} :
    {A : Type ℓ} (front xs back : List A) (i : ℕ) (a : A)
    → i < length xs
    → set (front ++ (xs ++ back)) (length front + i) a ≡ front ++ (set xs i a ++ back)
set-middle (y ∷ front) xs back i a h =
    ap (λ k. set (y ∷ (front ++ (xs ++ back))) k a) {y = suc (length front + i)} (omega arith)
    ∙ ap (λ t. y ∷ t) (set-middle front xs back i a h)
set-middle [] xs back i a h = ap (λ k. set (xs ++ back) k a) {y = i} (omega arith) ∙ inside xs i h
  where
    inside : (ys : List _) (k : ℕ) → k < length ys → set (ys ++ back) k a ≡ set ys k a ++ back
    inside [] k h = absurd (omega arith)
    inside (y ∷ ys) zero h = refl
    inside (y ∷ ys) (suc k) h = ap (λ t. y ∷ t) (inside ys k (omega arith))

pub get_elem?-last {ℓ} :
    {A : Type ℓ} (xs : List A) (x : A) → get_elem? (xs ++ x ∷ []) (length xs) ≡ some x
get_elem?-last [] x = refl
get_elem?-last (y ∷ xs) x = get_elem?-last xs x
