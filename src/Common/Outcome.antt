-- ===== src/Common/Outcome.antt =====
-- Fallible code: `Result<T, E>` and its chains.

pub data Result {ℓ} (E A : Type ℓ) : Type ℓ where
  ok : A → Result E A
  err : E → Result E A

infixl 5 ◌>>=◌
abbrev pub ◌>>=◌ {ℓ} : {E A B : Type ℓ} → Result E A → (A → Result E B) → Result E B
ok a >>= f = f a
err e >>= f = err e

-- What holds of the value, if there is one.
abbrev pub IfOk {ℓ κ} : {E A : Type ℓ} → (A → Type κ) → Result E A → Type κ
IfOk P (ok a) = P a
IfOk P (err e) = Unit

pub IfOk->>= {ℓ κ} :
    {E A B : Type ℓ} (Q : A → Type κ) (P : B → Type κ) (o : Result E A) (f : A → Result E B)
    → IfOk Q o
    → ((a : A) → Q a → IfOk P (f a))
    → IfOk P (o >>= f)
IfOk->>= Q P (ok a) f h next = next a h
IfOk->>= Q P (err e) f h next = tt

pub IfOk-any {ℓ} : {E A : Type ℓ} (o : Result E A) → IfOk (λ a. Unit {0}) o
IfOk-any (ok a) = tt
IfOk-any (err e) = tt
