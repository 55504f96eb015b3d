-- ===== src/Result.antt =====
-- A Go function that returns `(T, error)`.
use billax.Prelude.{◌≡◌, refl, ◌⊎◌, inl, inr, Bool, true, false, Text}
use billax.Errors.{Error, wrap}

pub data Result {ℓ} (A : Type ℓ) : Type ℓ where
  ok : A → Result A
  err : Error → Result A

-- `return …, fmt.Errorf("prefix: %w", err)`
abbrev pub wrap_err {ℓ} : {A : Type ℓ} → Text → Result A → Result A
wrap_err prefix (ok a) = ok a
wrap_err prefix (err e) = err (wrap prefix e)

pub Result-cases {ℓ} :
    {A : Type ℓ} (r : Result A) → ((a : A) × (r ≡ ok a)) ⊎ ((e : Error) × (r ≡ err e))
Result-cases (ok a) = inl (a, refl)
Result-cases (err e) = inr (e, refl)

-- `if !test { return …, e }`
abbrev pub guard : Bool → Error → Result (Unit {0})
guard test e = elim test [ false ↦ err e | true ↦ ok tt ]

infixl 5 ◌>>=◌ ◌>>◌
-- `if err != nil { return …, err }`
abbrev pub ◌>>=◌ {ℓ κ} : {A : Type ℓ} {B : Type κ} → Result A → (A → Result B) → Result B
err failure >>= next = err failure
ok value >>= next = next value

abbrev pub ◌>>◌ {ℓ} : {B : Type ℓ} → Result (Unit {0}) → Result B → Result B
first >> next = first >>= λ _. next
