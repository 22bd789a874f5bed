-- ===== src/Coordinator/Server/Tokens.antt =====
-- Maps of workers in which nobody is new and every token is kept.
use forge_grid.Prelude.{
  String, ◌≡◌, refl, sym, ap, ◌∙◌, inl, inr, some, arith, ◌==◌, eq_iff, Bool-cases, subst,
}
use forge_grid.Dict.{Dict, lookup, insert, lookup-insert}
use forge_grid.Coordinator.Models.{WorkerState}

-- Each worker after is one before, with the token it had.
abbrev pub IsOld : Dict WorkerState → Dict WorkerState → Type 0
IsOld before after =
    (id : String) (w : WorkerState)
    → lookup id after ≡ some w
    → (v : WorkerState) × (lookup id before ≡ some v) × (w.token_hash ≡ v.token_hash)

pub same-IsOld : (ws : Dict WorkerState) → IsOld ws ws
same-IsOld ws id w h = (w, h, refl)

pub equal-IsOld : (before after : Dict WorkerState) → after ≡ before → IsOld before after
equal-IsOld before after e = subst (λ ws. IsOld before ws) (sym e) (same-IsOld before)

pub chain-IsOld : (a b c : Dict WorkerState) → IsOld a b → IsOld b c → IsOld a c
chain-IsOld a b c f g id w h =
    let (v, there, same) = g id w h in
    let (u, first, equal) = f id v there in (u, first, same ∙ equal)

pub insert-IsOld :
    (id : String) (v w : WorkerState) (ws : Dict WorkerState)
    → lookup id ws ≡ some v
    → w.token_hash ≡ v.token_hash
    → IsOld ws (insert id w ws)
insert-IsOld id v w ws found same k u h = elim (Bool-cases (id == k)) [
  | inl here ↦
      let at_k : lookup k ws ≡ some v = ground (arith, here, found, eq_iff id k) in
      let is_w : w ≡ u = ground (arith, here, h, lookup-insert id k w ws) in
      (v, at_k, ap (λ (x : WorkerState). x.token_hash) (sym is_w) ∙ same)
  | inr other ↦ (u, ground (arith, other, h, lookup-insert id k w ws), refl)
]
