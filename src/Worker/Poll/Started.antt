-- ===== src/Worker/Poll/Started.antt =====
-- Which jobs a round of `pollJobs` starts.
use mathlib.Core.List.{Memᴰ}
use forge_grid.Prelude.{
  ℕ, ◌≡◌, refl, sym, ◌↔◌, false, none, some, List, [], ◌∷◌, arith, ◌==◌, eq_iff, Option-cases, inl,
  inr, subst,
}
use forge_grid.Dict.{lookup}
use forge_grid.Coordinator.Models.{Job}
use forge_grid.Worker.{Worker}
use forge_grid.Worker.Poll.{poll_loop}

-- A job that the worker does not run.
abbrev pub IsIdle : Worker → Job → Type 0
IsIdle w j = lookup j.id w.active_jobs ≡ none

abbrev pub IsPending : List Job → Type 0
IsPending jobs = (j : Job) → Memᴰ j jobs → j.status ≡ "pending"

pub poll_loop-same : (jobs : List Job) (w : Worker) → IsPending jobs → (poll_loop jobs w).0 ≡ w
unfolding poll_loop
poll_loop-same [] w h = refl
poll_loop-same (job ∷ jobs) w h =
    let pending = h job (Memᴰ.head refl) in
    rw pending (poll_loop-same jobs w (λ j m. h j (Memᴰ.tail m)))

pub mem-poll_loop :
    (jobs : List Job) (w : Worker) (j : Job)
    → IsPending jobs
    → Memᴰ j (poll_loop jobs w).1 ↔ (Memᴰ j jobs × IsIdle w j)
unfolding poll_loop
mem-poll_loop [] w j h = (λ m. elim m [ ], λ p. elim p.0 [ ])
mem-poll_loop (job ∷ jobs) w j h =
    let rest = mem-poll_loop jobs w j (λ k m. h k (Memᴰ.tail m)) in
    let status = h job (Memᴰ.head refl) in
    let pending = (eq_iff job.status "pending").1 status in
    let kept : (job.status == "cancelled") ≡ false =
      ground (arith, status, eq_iff job.status "cancelled", eq_iff "pending" "cancelled") in
    elim (Option-cases (lookup job.id w.active_jobs)) [
      | inl idle ↦
          rw (kept, pending, idle) (started idle rest.0, λ p. listed (λ m. rest.1 (m, p.1)) p.0)
      | inr (context, active) ↦
          rw (kept, pending, active)
            (
              λ m. let p = rest.0 m in (Memᴰ.tail p.0, p.1),
              λ p. skipped active (λ m. rest.1 (m, p.1)) p.1 p.0,
            )
    ]
  where
    started :
        IsIdle w job
        → (Memᴰ j (poll_loop jobs w).1 → Memᴰ j jobs × IsIdle w j)
        → Memᴰ j (job ∷ (poll_loop jobs w).1)
        → Memᴰ j (job ∷ jobs) × IsIdle w j
    started idle later (Memᴰ.head e) = (Memᴰ.head e, subst (IsIdle w) (sym e) idle)
    started idle later (Memᴰ.tail m) = let p = later m in (Memᴰ.tail p.0, p.1)

    listed :
        (Memᴰ j jobs → Memᴰ j (poll_loop jobs w).1)
        → Memᴰ j (job ∷ jobs)
        → Memᴰ j (job ∷ (poll_loop jobs w).1)
    listed later (Memᴰ.head e) = Memᴰ.head e
    listed later (Memᴰ.tail m) = Memᴰ.tail (later m)

    skipped :
        {context : ℕ}
        → lookup job.id w.active_jobs ≡ some context
        → (Memᴰ j jobs → Memᴰ j (poll_loop jobs w).1)
        → IsIdle w j
        → Memᴰ j (job ∷ jobs)
        → Memᴰ j (poll_loop jobs w).1
    skipped active later idle (Memᴰ.head e) =
        let idle' = subst (IsIdle w) e idle in absurd (ground (arith, active, idle'))
    skipped active later idle (Memᴰ.tail m) = later m
