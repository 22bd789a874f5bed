-- ===== src/Execution/Logs.antt =====
-- The log of a run.
use mathlib.Core.List.{append-nil, append_assoc}
use forge_grid.Prelude.{
  ℕ, zero, suc, ◌+◌, ◌≤◌, ◌≡◌, refl, sym, ap, ◌∙◌, String, List, [], ◌∷◌, ◌++◌, arith, length,
  length-append, leb, ltb, if◌then◌else◌, Bool-cases, inl, inr, take, push, ltb→lt,
}
use forge_grid.Execution.{add_log, add_logs, truncated}

-- What the log is meant to hold.
abbrev pub shortened : ℕ → List String → List String
shortened limit lines =
    if leb (length lines) limit then lines else push (take limit lines) truncated

take_all : (xs : List String) (n : ℕ) → length xs ≤ n → take n xs ≡ xs
take_all [] zero h = refl
take_all [] (suc n) h = refl
take_all (x ∷ xs) zero h = absurd (omega arith)
take_all (x ∷ xs) (suc n) h = ap (λ (l : List String). x ∷ l) (take_all xs n (omega arith))

take-append : (xs ys : List String) → take (length xs) (xs ++ ys) ≡ xs
take-append [] ys = refl
take-append (x ∷ xs) ys = ap (λ (l : List String). x ∷ l) (take-append xs ys)

-- Behind the marker nothing is added.
add_logs_full :
    (limit : ℕ) (lines logs : List String)
    → length logs ≡ limit + 1
    → add_logs limit lines logs ≡ logs
unfolding add_logs add_log
add_logs_full limit [] logs h = refl
add_logs_full limit (line ∷ lines) logs h =
    let same : add_log limit line logs ≡ logs = ground (arith, h) in
    ap (add_logs limit lines) same ∙ add_logs_full limit lines logs h

add_logs_from :
    (limit : ℕ) (lines logs : List String)
    → length logs ≤ limit
    → add_logs limit lines logs ≡ shortened limit (logs ++ lines)
unfolding add_logs add_log
add_logs_from limit [] logs h = rw (append-nil logs) (ground (arith, h))
add_logs_from limit (line ∷ lines) logs h = elim (Bool-cases (ltb (length logs) limit)) [
  | inl room ↦
      let step : add_log limit line logs ≡ push logs line = ground (arith, room) in
      ap (add_logs limit lines) step
      ∙ add_logs_from limit lines (push logs line)
          (omega (arith, length-append logs (line ∷ []), ltb→lt (length logs) limit room))
      ∙ ap (shortened limit) (append_assoc logs (line ∷ []) lines)
  | inr full ↦
      let at_limit : length logs ≡ limit = ground (arith, h, full) in
      let step : add_log limit line logs ≡ push logs truncated = ground (arith, full, at_limit) in
      let cut : take limit (logs ++ (line ∷ lines)) ≡ logs =
        ap (λ (n : ℕ). take n (logs ++ (line ∷ lines))) (sym at_limit)
        ∙ take-append logs (line ∷ lines) in
      ap (add_logs limit lines) step
      ∙ add_logs_full limit lines (push logs truncated)
          (omega (arith, length-append logs (truncated ∷ []), at_limit))
      ∙ ground (arith, cut, at_limit, length-append logs (line ∷ lines))
]

length-take : (n : ℕ) (xs : List String) → length (take n xs) ≤ n
length-take zero xs = omega arith
length-take (suc n) [] = omega arith
length-take (suc n) (x ∷ xs) = omega (arith, length-take n xs)

-- Whatever the processes print and however the two scanners take turns, the log is what was scanned,
-- or, if that is more than the limit, its first lines up to the limit and then the marker. So it has
-- at most one line more than the limit.
pub add_logs_exact :
    (limit : ℕ) (lines : List String)
    → (add_logs limit lines [] ≡ shortened limit lines)
      × (length (add_logs limit lines []) ≤ limit + 1)
add_logs_exact limit lines =
    let exact = add_logs_from limit lines [] (omega arith) in
    (
      exact,
      rw exact (
          ground
            (arith, length-take limit lines, length-append (take limit lines) (truncated ∷ []))),
    )
