-- ===== src/Bootstrap/Bundle/Laws.antt =====
-- A chain of checks that ends well has passed each of them.
use forge_grid.Prelude.{◌≡◌, refl, Bool, true, false, Option, none, some, arith}
use forge_grid.Bootstrap.Bundle.{Result, ok, BundleError, ◌>>=◌, ◌>>◌, or_fail, require}

pub require_passed :
    {B : Type 0} {a : B} {k : Result B} (b : Bool) (e : BundleError)
    → require b e >> k ≡ ok a
    → (b ≡ true) × (k ≡ ok a)
require_passed true e h = (refl, h)
require_passed false e h = absurd (ground (arith, h))

pub or_fail_passed :
    {A B : Type 0} {a : B} (f : A → Result B) (o : Option A) (e : BundleError)
    → or_fail e o >>= f ≡ ok a
    → (x : A) × (o ≡ some x) × (f x ≡ ok a)
or_fail_passed f none e h = absurd (ground (arith, h))
or_fail_passed f (some x) e h = (x, refl, h)
