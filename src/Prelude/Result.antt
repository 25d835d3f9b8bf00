-- ===== src/Prelude/Result.antt =====
-- Results of code that may throw, and what they satisfy.

pub data Result {ℓ} (E : Type 0) (A : Type ℓ) : Type ℓ where
  ok : A → Result E A
  throws : E → Result E A

infixl 5 ◌>>=◌
abbrev pub ◌>>=◌ {ℓ κ} :
    {E : Type 0} {A : Type ℓ} {B : Type κ} → Result E A → (A → Result E B) → Result E B
ok a >>= f = f a
throws e >>= f = throws e

-- `P` of what is returned, `R` of what is thrown.
abbrev pub Post {ℓ κ} :
    {E : Type 0} {A : Type ℓ} → (A → Type κ) → (E → Type κ) → Result E A → Type κ
Post P R (ok a) = P a
Post P R (throws e) = R e

-- The rule of the sequence: what follows may use what the first part returns with.
pub Post-bind {ℓ κ} :
    {E : Type 0} {A B : Type ℓ} {P : A → Type κ} (Q : B → Type κ) (R : E → Type κ) (m : Result E A)
    (f : A → Result E B)
    → Post P R m
    → ((a : A) → P a → Post Q R (f a))
    → Post Q R (m >>= f)
Post-bind Q R (ok a) f h next = next a h
Post-bind Q R (throws e) f h next = h

pub Post-map {ℓ κ} :
    {E : Type 0} {A : Type ℓ} {P : A → Type κ} (Q : A → Type κ) (R : E → Type κ) (m : Result E A)
    → Post P R m
    → ((a : A) → P a → Q a)
    → Post Q R m
Post-map Q R (ok a) h f = f a h
Post-map Q R (throws e) h f = h
