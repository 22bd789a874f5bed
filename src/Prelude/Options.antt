-- ===== src/Prelude/Options.antt =====
-- Chains of calls that may give nothing.
use mathlib.Core.Path.{◌≡◌, refl}
use mathlib.Core.Option.{Option, none, some}
use native.Mathlib.Omega.{arith}

infixl 5 ◌>>=◌
abbrev pub ◌>>=◌ {ℓ κ} : {A : Type ℓ} {B : Type κ} → Option A → (A → Option B) → Option B
none >>= f = none
some a >>= f = f a

-- A chain that ends in a value had a value at its first call.
pub bind_some {ℓ κ} :
    {A : Type ℓ} {B : Type κ} {b : B} (f : A → Option B) (o : Option A)
    → o >>= f ≡ some b
    → (a : A) × (o ≡ some a) × (f a ≡ some b)
bind_some f none h = absurd (ground (arith, h))
bind_some f (some a) h = (a, refl, h)
