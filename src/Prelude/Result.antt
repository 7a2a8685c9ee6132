-- ===== src/Prelude/Result.antt =====
-- The outcome of Python code that may raise: a value, or the exception as a value of `E`.
use mathlib.Core.Path.{◌≡◌, refl}
use mathlib.Core.Bool.{Bool, true, false}
use mathlib.Core.Logic.{◌⊎◌, inl, inr}

pub data Outcome {ℓ} (E : Type 0) (A : Type ℓ) : Type ℓ where
  err : E → Outcome E A
  ok : A → Outcome E A

-- `if not test: raise e`
abbrev pub guard : {E : Type 0} → Bool → E → Outcome E (Unit {0})
guard false e = err e
guard true e = ok tt

module _ {ℓ κ} {E : Type 0} {A : Type ℓ} {B : Type κ} where
  infixl 5 ◌>>=◌
  -- a bind: the statements after a call run where it returns
  abbrev pub ◌>>=◌ : Outcome E A → (A → Outcome E B) → Outcome E B
  err x >>= rest = err x
  ok a >>= rest = rest a

  -- A successful bind comes from two successes.
  pub >>=-eq-ok :
      (m : Outcome E A) (rest : A → Outcome E B) {b : B}
      → (m >>= rest) ≡ ok b
      → (a : A) × (m ≡ ok a) × (rest a ≡ ok b)
  >>=-eq-ok (err x) rest h = cc
  >>=-eq-ok (ok a) rest h = (a, refl, h)

  -- The same, handed on to a proof that then knows the value by its equation alone.
  pub bind_elim {μ} :
      {C : Type μ} (m : Outcome E A) (rest : A → Outcome E B) {b : B}
      → (m >>= rest) ≡ ok b
      → ((a : A) → m ≡ ok a → rest a ≡ ok b → C)
      → C
  bind_elim (err x) rest h go = cc
  bind_elim (ok a) rest h go = go a refl h

infixl 5 ◌>>◌
abbrev pub ◌>>◌ {ℓ} : {E : Type 0} {B : Type ℓ} → Outcome E (Unit {0}) → Outcome E B → Outcome E B
m >> rest = m >>= λ _. rest

pub Result-cases {ℓ} :
    {E : Type 0} {A : Type ℓ} (m : Outcome E A) → ((x : E) × (m ≡ err x)) ⊎ ((a : A) × (m ≡ ok a))
Result-cases (err x) = inl (x, refl)
Result-cases (ok a) = inr (a, refl)
