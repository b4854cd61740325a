-- ===== src/Base/Result.antt =====
-- Go's pair of a value and an error, for code that returns one of the two.
use mathlib.Core.Bool.{Bool, true, false}
use mathlib.Core.Path.{◌≡◌, refl}

pub data Result {ℓ κ} (E : Type κ) (A : Type ℓ) : Type (ℓ ⊔ κ) where
  ok : A → Result E A
  err : E → Result E A

infixl 5 ◌>>=◌
abbrev pub ◌>>=◌ {ℓ κ ι} :
    {E : Type ι} {A : Type ℓ} {B : Type κ} → Result E A → (A → Result E B) → Result E B
ok a >>= f = f a
err e >>= f = err e

abbrev pub is_ok {ℓ κ} : {E : Type κ} {A : Type ℓ} → Result E A → Bool
is_ok (ok a) = true
is_ok (err e) = false

-- A chain that succeeds succeeded at each step.
pub bind_steps {ℓ κ ι} :
    {E : Type ι} {A : Type ℓ} {B : Type κ} {last : B} (first : Result E A)
    → (next : A → Result E B) → (first >>= next) ≡ ok last
    → (mid : A) × (next mid ≡ ok last) × (first ≡ ok mid)
bind_steps (err e) next h = cc
bind_steps (ok mid) next h = (mid, h, refl)
