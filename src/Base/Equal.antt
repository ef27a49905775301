-- ===== src/Base/Equal.antt =====
-- `==` on byte strings.
use Prim.Native.Nat.{ℕ}
use mathlib.Core.Path.{◌≡◌, refl, ap}
use mathlib.Core.Logic.{inl, inr, ◌≢◌}
use mathlib.Core.Bool.{Bool, true, false, ◌&&◌}
use mathlib.Core.List.{List, [], ◌∷◌}
use native.Mathlib.Omega.{arith}
use pulsearc_db.Base.Tests.{◌==◌, Bool-cases}

unfoldable pub bytes_eq : List ℕ → List ℕ → Bool
bytes_eq [] [] = true
bytes_eq [] (b ∷ s) = false
bytes_eq (a ∷ r) [] = false
bytes_eq (a ∷ r) (b ∷ s) = a == b && bytes_eq r s

pub bytes_eq→eq : (r s : List ℕ) → bytes_eq r s ≡ true → r ≡ s
unfolding bytes_eq
bytes_eq→eq [] [] h = refl
bytes_eq→eq [] (b ∷ s) h = cc
bytes_eq→eq (a ∷ r) [] h = cc
bytes_eq→eq (a ∷ r) (b ∷ s) h = ground (arith, bytes_eq→eq r s)

pub bytes_eq_self : (r : List ℕ) → bytes_eq r r ≡ true
unfolding bytes_eq
bytes_eq_self [] = refl
bytes_eq_self (a ∷ r) = ground (arith, bytes_eq_self r)

pub bytes_eq_ne : (r s : List ℕ) → r ≢ s → bytes_eq r s ≡ false
bytes_eq_ne r s h = elim (Bool-cases (bytes_eq r s)) [
  | inl e ↦ absurd (h (bytes_eq→eq r s e))
  | inr e ↦ e
]

pub bytes_ne : (r s : List ℕ) → bytes_eq r s ≡ false → r ≢ s
bytes_ne r s h e = cc (ap (bytes_eq r) e, bytes_eq_self r, h)
