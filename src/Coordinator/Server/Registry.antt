-- ===== src/Coordinator/Server/Registry.antt =====
-- The maps of workers and jobs, and the writes that keep them sound.
use forge_grid.Prelude.{String, ◌≡◌, some, arith, ◌==◌, eq_iff, Bool-cases, subst, inl, inr}
use forge_grid.Dict.{Dict, lookup, insert, lookup-insert}
use forge_grid.Dict.Keys.{IsDistinct, insert-IsDistinct}
use forge_grid.Coordinator.Models.{WorkerState, Job}

-- Each worker stands at its id, and each job belongs to a worker that is registered.
pub record IsSound (workers : Dict WorkerState) (jobs : Dict Job) : Type 0 where
  pub distinct : IsDistinct workers
  pub at_id : (id : String) (w : WorkerState) → lookup id workers ≡ some w → w.id ≡ id
  pub assigned :
      (id : String) (job : Job)
      → lookup id jobs ≡ some job
      → (w : WorkerState) × (lookup job.worker_id workers ≡ some w)

-- A worker is written at its id.
pub insert-worker :
    (id : String) (w : WorkerState) (ws : Dict WorkerState) (jobs : Dict Job)
    → w.id ≡ id
    → IsSound ws jobs
    → IsSound (insert id w ws) jobs
insert-worker id w ws jobs same s = record {
  distinct = insert-IsDistinct id w ws s.distinct;
  at_id = λ k v h. elim (Bool-cases (id == k)) [
    | inl here ↦ ground (arith, here, h, same, lookup-insert id k w ws, eq_iff id k)
    | inr other ↦ s.at_id k v (ground (arith, other, h, lookup-insert id k w ws))
  ];
  assigned = λ k job h. elim (Bool-cases (id == job.worker_id)) [
    | inl here ↦ (w, ground (arith, here, lookup-insert id job.worker_id w ws))
    | inr other ↦
        let (v, found) = s.assigned k job h in
        (v, ground (arith, other, found, lookup-insert id job.worker_id w ws))
  ];
}

-- A job of a registered worker is written.
pub insert-job :
    (id : String) (job : Job) (w : WorkerState) (ws : Dict WorkerState) (jobs : Dict Job)
    → lookup job.worker_id ws ≡ some w
    → IsSound ws jobs
    → IsSound ws (insert id job jobs)
insert-job id job w ws jobs found s = record {
  distinct = s.distinct;
  at_id = s.at_id;
  assigned = λ k other h. elim (Bool-cases (id == k)) [
    | inl here ↦
        let same : job ≡ other = ground (arith, here, h, lookup-insert id k job jobs) in
        (w, subst (λ (j : Job). lookup j.worker_id ws ≡ some w) same found)
    | inr there ↦ s.assigned k other (ground (arith, there, h, lookup-insert id k job jobs))
  ];
}
