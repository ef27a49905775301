-- ===== src/Base/Slices.antt =====
-- Splitting a byte string at a position that is known.
use Prim.Native.Nat.{ℕ, zero, suc, ◌+◌, ◌≤◌}
use mathlib.Core.Path.{◌≡◌, refl, ap, sym, ◌∙◌}
use mathlib.Core.List.{List, [], ◌∷◌, ◌++◌}
use native.Mathlib.Omega.{arith}
use pulsearc_db.Base.Lists.{length, set, take, drop}

module _ {ℓ} {A : Type ℓ} where
  pub take-append_length : (xs ys : List A) → take (length xs) (xs ++ ys) ≡ xs
  take-append_length [] ys = refl
  take-append_length (x ∷ xs) ys = ap (λ t. x ∷ t) (take-append_length xs ys)

  pub drop-append_length : (xs ys : List A) → drop (length xs) (xs ++ ys) ≡ ys
  drop-append_length [] ys = refl
  drop-append_length (x ∷ xs) ys = drop-append_length xs ys

  pub take_all : (n : ℕ) (xs : List A) → length xs ≤ n → take n xs ≡ xs
  take_all zero [] h = refl
  take_all zero (x ∷ xs) h = absurd (omega arith)
  take_all (suc n) [] h = refl
  take_all (suc n) (x ∷ xs) h = ap (λ t. x ∷ t) (take_all n xs (omega arith))

  pub drop_all : (n : ℕ) (xs : List A) → length xs ≤ n → drop n xs ≡ []
  drop_all zero [] h = refl
  drop_all zero (x ∷ xs) h = absurd (omega arith)
  drop_all (suc n) [] h = refl
  drop_all (suc n) (x ∷ xs) h = drop_all n xs (omega arith)

  drop_none : (n : ℕ) → drop {A = A} n [] ≡ []
  drop_none zero = refl
  drop_none (suc n) = refl

  pub drop-drop : (n m : ℕ) (xs : List A) → drop n (drop m xs) ≡ drop (m + n) xs
  drop-drop n zero xs = ap (λ k. drop k xs) (omega arith)
  drop-drop n (suc m) [] = rw (drop_none n, drop_none (suc m + n))
  drop-drop n (suc m) (x ∷ xs) =
      drop-drop n m xs ∙ ap (λ k. drop k (x ∷ xs)) {x = suc (m + n)} (omega arith)

  -- A write at the first position behind `done`.
  pub set-append_length :
      (done slot : List A) (old a : A) → set (done ++ old ∷ slot) (length done) a ≡ done ++ a ∷ slot
  set-append_length [] slot old a = refl
  set-append_length (x ∷ done) slot old a = ap (λ t. x ∷ t) (set-append_length done slot old a)

  -- The front and what is behind it, by its length.
  pub drop_front : (n : ℕ) (front back : List A) → length front ≡ n → drop n (front ++ back) ≡ back
  drop_front n front back e =
      ap (λ k. drop k (front ++ back)) (sym e) ∙ drop-append_length front back

  pub take_front : (n : ℕ) (front back : List A) → length front ≡ n → take n (front ++ back) ≡ front
  take_front n front back e =
      ap (λ k. take k (front ++ back)) (sym e) ∙ take-append_length front back
