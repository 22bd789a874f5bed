-- ===== src/Dict.antt =====
-- Go's `map[string]V`, as the list of its entries in the order in which `range` visits them. Go
-- leaves that order open: what is proved of every list holds for every order of iteration.

pub mod Keys
use forge_grid.Prelude.{
  String, ◌≡◌, refl, Option, none, some, List, [], ◌∷◌, arith, ◌==◌, eq_iff, if◌then◌else◌,
}

abbrev pub Dict {ℓ} : Type ℓ → Type ℓ
Dict V = List (String × V)

module _ {ℓ} {V : Type ℓ} where
  -- v, ok := m[k]
  unfoldable pub lookup : String → Dict V → Option V
  lookup k [] = none
  lookup k ((j, v) ∷ m) = if j == k then some v else lookup k m

  -- m[k] = v
  unfoldable pub insert : String → V → Dict V → Dict V
  insert k new [] = (k, new) ∷ []
  insert k new ((i, old) ∷ more) = if i == k then (k, new) ∷ more else (i, old) ∷ insert k new more

  -- delete(m, k)
  unfoldable pub delete : String → Dict V → Dict V
  delete k [] = []
  delete k ((j, v) ∷ m) = let rest = delete k m in if j == k then rest else (j, v) ∷ rest

  -- The values, in the order of iteration.
  unfoldable pub values : Dict V → List V
  values [] = []
  values ((k, v) ∷ m) = v ∷ values m

  -- A read behind a write, at the written key or at another one.
  pub lookup-insert :
      (put got : String) (new : V) (m : Dict V)
      → lookup got (insert put new m) ≡ (if put == got then some new else lookup got m)
  unfolding lookup insert
  lookup-insert put got new [] = refl
  lookup-insert put got new ((head, old) ∷ more) =
      ground
        (arith, lookup-insert put got new more, eq_iff put got, eq_iff head put, eq_iff head got)

  pub lookup-delete :
      (k j : String) (m : Dict V) → lookup j (delete k m) ≡ (if k == j then none else lookup j m)
  unfolding lookup delete
  lookup-delete k j [] = ground arith
  lookup-delete k j ((i, w) ∷ m) =
      ground (arith, lookup-delete k j m, eq_iff k j, eq_iff i k, eq_iff i j)

pub lookup-nil {ℓ} : {V : Type ℓ} (k : String) → lookup {V = V} k [] ≡ none
unfolding lookup
lookup-nil k = refl

pub ruleset dict_laws = (lookup-insert, lookup-delete, lookup-nil)
