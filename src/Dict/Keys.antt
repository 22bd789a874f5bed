-- ===== src/Dict/Keys.antt =====
-- The keys of a map are distinct: the two writes keep them so, and then the values that `range`
-- visits are those that a lookup finds.
use mathlib.Core.List.{Memᴰ}
use forge_grid.Prelude.{
  ◌+◌, ◌≤◌, String, ◌≡◌, refl, sym, ap, [], ◌∷◌, arith, ◌==◌, eq_iff, eq_refl, length, none, some,
  Bool-cases, inl, inr,
}
use forge_grid.Dict.{Dict, insert, delete, lookup, values, lookup-insert, lookup-delete}

module _ {ℓ} {V : Type ℓ} where
  abbrev pub IsDistinct : Dict V → Type ℓ
  IsDistinct [] = Unit
  IsDistinct ((k, v) ∷ m) = (lookup k m ≡ none) × IsDistinct m

  pub insert-IsDistinct :
      (k : String) (v : V) (m : Dict V) → IsDistinct m → IsDistinct (insert k v m)
  unfolding insert lookup
  insert-IsDistinct k v [] h = (refl, tt)
  insert-IsDistinct k v ((j, w) ∷ m) h = elim (Bool-cases (j == k)) [
    | inl same ↦ rw same (rw ((eq_iff j k).0 same) at h)
    | inr other ↦ rw other (
      rw lookup-insert (ground (arith, h.0, eq_iff j k, eq_iff k j)),
      insert-IsDistinct k v m h.1,
    )
  ]

  pub delete-IsDistinct : (k : String) (m : Dict V) → IsDistinct m → IsDistinct (delete k m)
  unfolding delete
  delete-IsDistinct k [] h = tt
  delete-IsDistinct k ((j, w) ∷ m) h = elim (Bool-cases (j == k)) [
    | inl same ↦ rw same (delete-IsDistinct k m h.1)
    | inr other ↦ rw other (ground (arith, h.0, lookup-delete k j m), delete-IsDistinct k m h.1)
  ]

  -- A value that is visited is at some key.
  pub lookup_of_mem-values :
      (v : V) (m : Dict V) → IsDistinct m → Memᴰ v (values m) → (k : String) × (lookup k m ≡ some v)
  unfolding values lookup
  lookup_of_mem-values v [] h t = elim t [ ]
  lookup_of_mem-values v ((j, w) ∷ m) h (Memᴰ.head e) = (j, rw (eq_refl j) (ap some (sym e)))
  lookup_of_mem-values v ((j, w) ∷ m) h (Memᴰ.tail t) =
      let (k, found) = lookup_of_mem-values v m h.1 t in (k, ground (arith, h.0, eq_iff j k))

  -- A value at a key is visited.
  pub mem-values_of_lookup :
      (k : String) (v : V) (m : Dict V) → lookup k m ≡ some v → Memᴰ v (values m)
  unfolding values lookup
  mem-values_of_lookup k v ((j, w) ∷ m) h = elim (Bool-cases (j == k)) [
    | inl same ↦ Memᴰ.head (ground arith)
    | inr other ↦ Memᴰ.tail (mem-values_of_lookup k v m (ground arith))
  ]
  mem-values_of_lookup k v [] h = absurd (ground arith)

  -- A write adds at most one entry.
  pub length-insert : (k : String) (v : V) (m : Dict V) → length (insert k v m) ≤ length m + 1
  unfolding insert
  length-insert k v [] = omega arith
  length-insert k v ((j, w) ∷ m) = ground (arith, length-insert k v m)

  -- A write at a key that is there adds none.
  pub length-insert_again :
      (k : String) (v w : V) (m : Dict V) → lookup k m ≡ some w → length (insert k v m) ≡ length m
  unfolding insert lookup
  length-insert_again k v w [] h = absurd (ground arith)
  length-insert_again k v w ((j, u) ∷ m) h = ground (arith, length-insert_again k v w m)

  pub length-delete : (k : String) (m : Dict V) → length (delete k m) ≤ length m
  unfolding delete
  length-delete k [] = omega arith
  length-delete k ((j, w) ∷ m) = ground (arith, length-delete k m)
