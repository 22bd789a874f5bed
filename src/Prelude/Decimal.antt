-- ===== src/Prelude/Decimal.antt =====
-- Numbers as package fmt prints them.
use Prim.Native.Nat.{ℕ, zero, suc, ◌/◌, ◌%◌}
use Prim.Native.String.{String, ◌++◌}
use mathlib.Core.List.{List, [], ◌∷◌}
use forge_grid.Prelude.Lists.{get_elem?, get_or}
use forge_grid.Prelude.Tests.{ltb}
use forge_grid.Prelude.Int.{ℤ, pos, negsuc}
use mathlib.Core.Bool.{true, false}

abbrev pub digits : List String
digits = "0" ∷ "1" ∷ "2" ∷ "3" ∷ "4" ∷ "5" ∷ "6" ∷ "7" ∷ "8" ∷ "9" ∷ []

abbrev pub digit : ℕ → String
digit n = get_or (get_elem? digits n) ""

-- The digits of a number that has at most as many as the first argument says.
abbrev digits_of : ℕ → ℕ → String
digits_of zero n = ""
digits_of (suc k) n = elim (ltb n 10) [
  | true ↦ digit n
  | false ↦ digits_of k (n / 10) ++ digit (n % 10)
]

-- %d: a number has no more digits than its successor.
unfoldable pub decimal : ℕ → String
decimal n = digits_of (suc n) n

unfoldable pub show_int : ℤ → String
unfolding decimal
show_int (pos n) = decimal n
show_int (negsuc n) = "-" ++ decimal (suc n)
