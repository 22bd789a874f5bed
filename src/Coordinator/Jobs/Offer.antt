-- ===== src/Coordinator/Jobs/Offer.antt =====
-- `handleListJobs` for a worker: the jobs that it is offered.
use mathlib.Core.List.{Memᴰ}
use forge_grid.Prelude.{
  ◌&&◌, String, ◌≡◌, sym, ◌↔◌, true, false, some, List, [], ◌∷◌, arith, ◌==◌, eq_iff, Bool-cases,
  inl, inr, subst,
}
use forge_grid.Dict.{Dict, lookup, values}
use forge_grid.Dict.Keys.{IsDistinct, lookup_of_mem-values, mem-values_of_lookup}
use forge_grid.Coordinator.Models.{Job}
use forge_grid.Coordinator.Jobs.{pending_jobs}

-- A job that is assigned to the worker and pending.
pub record IsOffer (worker_id : String) (j : Job) : Type 0 where
  pub own : j.worker_id ≡ worker_id
  pub waiting : j.status ≡ "pending"

mem-pending_jobs :
    (worker_id : String) (j : Job) (jobs : List Job)
    → Memᴰ j (pending_jobs worker_id jobs) ↔ (Memᴰ j jobs × IsOffer worker_id j)
unfolding pending_jobs
mem-pending_jobs worker_id j [] = (λ t. elim t [ ], λ p. elim p.0 [ ])
mem-pending_jobs worker_id j (k ∷ jobs) =
    let rest = mem-pending_jobs worker_id j jobs in
    elim (Bool-cases (k.worker_id == worker_id && k.status == "pending")) [
      | inr skipped ↦ rw skipped (
        λ t. let p = rest.0 t in (Memᴰ.tail p.0, p.1),
        λ p. skip skipped (λ m. rest.1 (m, p.1)) p.1 p.0,
      )
      | inl offered ↦ rw offered (λ t. take offered rest.0 t, λ p. keep (λ m. rest.1 (m, p.1)) p.0)
    ]
  where
    skip :
        (k.worker_id == worker_id && k.status == "pending") ≡ false
        → (Memᴰ j jobs → Memᴰ j (pending_jobs worker_id jobs))
        → IsOffer worker_id j
        → Memᴰ j (k ∷ jobs)
        → Memᴰ j (pending_jobs worker_id jobs)
    skip no' later facts (Memᴰ.head e) =
        let facts' = subst (IsOffer worker_id) e facts in
        absurd (
          ground (
            arith,
            no',
            facts'.own,
            facts'.waiting,
            eq_iff k.worker_id worker_id,
            eq_iff k.status "pending",
          ))
    skip no' later facts (Memᴰ.tail m) = later m

    take :
        (k.worker_id == worker_id && k.status == "pending") ≡ true
        → (Memᴰ j (pending_jobs worker_id jobs) → Memᴰ j jobs × IsOffer worker_id j)
        → Memᴰ j (k ∷ pending_jobs worker_id jobs)
        → Memᴰ j (k ∷ jobs) × IsOffer worker_id j
    take o later (Memᴰ.head e) = (
      Memᴰ.head e,
      subst (IsOffer worker_id) (sym e) (record {
        own = ground (arith, o, eq_iff k.worker_id worker_id);
        waiting = ground (arith, o, eq_iff k.status "pending");
      }),
    )
    take o later (Memᴰ.tail t) = let p = later t in (Memᴰ.tail p.0, p.1)

    keep :
        (Memᴰ j jobs → Memᴰ j (pending_jobs worker_id jobs))
        → Memᴰ j (k ∷ jobs)
        → Memᴰ j (k ∷ pending_jobs worker_id jobs)
    keep later (Memᴰ.head e) = Memᴰ.head e
    keep later (Memᴰ.tail m) = Memᴰ.tail (later m)

-- The jobs offered to a worker are exactly the stored ones that are assigned to it and pending: a
-- job that was cancelled is not among them.
pub pending_jobs_iff :
    (worker_id : String) (jobs : Dict Job) (j : Job)
    → IsDistinct jobs
    → Memᴰ j (pending_jobs worker_id (values jobs))
      ↔ (((id : String) × (lookup id jobs ≡ some j)) × IsOffer worker_id j)
pending_jobs_iff worker_id jobs j distinct =
    let inner = mem-pending_jobs worker_id j (values jobs) in
    (
      λ t. let p = inner.0 t in (lookup_of_mem-values j jobs distinct p.0, p.1),
      λ p. inner.1 (mem-values_of_lookup p.0.0 j jobs p.0.1, p.1),
    )
