-- ===== src/Common/Results.antt =====
-- Go's `(value, error)`: a call returns its value or an error, never both.
use mathlib.Core.Path.{◌≡◌, refl}
use mathlib.Core.Logic.{◌⊎◌, inl, inr}
use mathlib.Core.Option.{Option, none, some}

pub data Result {ℓ κ} (E : Type ℓ) (A : Type κ) : Type (ℓ ⊔ κ) where
  ok : A → Result E A
  err : E → Result E A

infixl 5 ◌>>=◌
abbrev pub ◌>>=◌ {ℓ κ μ} :
    {E : Type ℓ} {A : Type κ} {B : Type μ} → Result E A → (A → Result E B) → Result E B
ok a >>= f = f a
err e >>= f = err e

pub Result-cases {ℓ κ} :
    {E : Type ℓ} {A : Type κ} (m : Result E A) → ((e : E) × (m ≡ err e)) ⊎ ((a : A) × (m ≡ ok a))
Result-cases (ok a) = inr (a, refl)
Result-cases (err e) = inl (e, refl)

-- A computation on fuel: it runs out, fails, or returns.
pub Fueled-cases {ℓ κ} :
    {E : Type ℓ} {A : Type κ} (o : Option (Result E A))
    → (o ≡ none) ⊎ (((e : E) × (o ≡ some (err e))) ⊎ ((a : A) × (o ≡ some (ok a))))
Fueled-cases none = inl refl
Fueled-cases (some (err e)) = inr (inl (e, refl))
Fueled-cases (some (ok a)) = inr (inr (a, refl))

-- What a chain that returns is made of.
pub chain_inverts {ℓ κ μ} :
    {E : Type ℓ} {A : Type κ} {B : Type μ} (f : A → Result E B) (r : Result E A) (b : B)
    → (r >>= f) ≡ ok b
    → (a : A) × (r ≡ ok a) × (f a ≡ ok b)
chain_inverts f (err e) b q = cc
chain_inverts f (ok a) b q = (a, refl, q)

-- The same beside a state.
pub Fueled-state {ℓ κ μ} :
    {E : Type ℓ} {A : Type κ} {S : Type μ} (o : Option (Result E A × S))
    → (o ≡ none)
      ⊎ (((e : E) × (s : S) × (o ≡ some (err e, s))) ⊎ ((a : A) × (s : S) × (o ≡ some (ok a, s))))
Fueled-state none = inl refl
Fueled-state (some (err e, s)) = inr (inl (e, s, refl))
Fueled-state (some (ok a, s)) = inr (inr (a, s, refl))
