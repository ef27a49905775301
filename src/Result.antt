-- ===== src/Result.antt =====
-- `Result<T>` of src/status/status.rs, and chains of fallible steps (the `?` operator).
use pulsearc_db.Base.{Option, none, some, ◌≡◌, refl, ◌⊎◌, inl, inr, arith}
use pulsearc_db.Status.{Status}

-- `panicked` is no value of the source: an assertion, an `expect` or an index out of range failed.
pub data Result {ℓ} (A : Type ℓ) : Type ℓ where
  ok : A → Result A
  err : Status → Result A
  panicked : Result A

infixl 5 ◌>>=◌
abbrev pub ◌>>=◌ {ℓ κ} : {S : Type ℓ} {T : Type κ} → Result S → (S → Result T) → Result T
panicked >>= next = panicked
err status >>= next = err status
ok value >>= next = next value

-- `ok_or_else(|| status)?`
abbrev pub ok_or {ℓ} : {A : Type ℓ} → Option A → Status → Result A
ok_or none e = err e
ok_or (some a) e = ok a

-- A step that panics where it has no value, such as an index or an `expect`.
abbrev pub expect {ℓ} : {A : Type ℓ} → Option A → Result A
expect none = panicked
expect (some a) = ok a

-- Where a chain has succeeded, so have its first step and what comes after.
pub >>=-eq-ok {ℓ κ} :
    {S : Type ℓ} {T : Type κ} {last : T} (step : Result S) (next : S → Result T)
    → (step >>= next) ≡ ok last
    → (value : S) × (step ≡ ok value) × (next value ≡ ok last)
>>=-eq-ok panicked next e = absurd (ground arith)
>>=-eq-ok (err status) next e = absurd (ground arith)
>>=-eq-ok (ok value) next e = (value, refl, e)

pub Result-cases {ℓ} :
    {A : Type ℓ} (m : Result A)
    → ((a : A) × (m ≡ ok a)) ⊎ (((e : Status) × (m ≡ err e)) ⊎ (m ≡ panicked))
Result-cases (ok a) = inl (a, refl)
Result-cases (err e) = inr (inl (e, refl))
Result-cases panicked = inr (inr refl)
