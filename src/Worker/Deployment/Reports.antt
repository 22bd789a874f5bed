-- ===== src/Worker/Deployment/Reports.antt =====
-- What the two updates of a test job say, and what the coordinator makes of them.
use forge_grid.Prelude.{
  ℕ, String, ◌≡◌, ◌≢◌, ◌⊎◌, inl, inr, refl, List, arith, ◌==◌, eq_iff, Bool-cases,
}
use forge_grid.Bridge.Models.{Time}
use forge_grid.Coordinator.Models.{Job}
use forge_grid.Coordinator.Requests.{JobUpdate}
use forge_grid.Coordinator.Jobs.{start_attempt, record_result, finish_job, update_job}
use forge_grid.Worker.{Worker}
use forge_grid.Worker.Execute.{
  Site, attempt_of, test_report, report_of, running_update, final_update,
}

-- The first update of a pending job sets its attempt, which the last update names.
pub first_attempt :
    (h : String → String) (stamp : ℕ) (job : Job) (logs : List String) (now : Time)
    → job.status ≡ "pending"
    → (update_job h
        (record {
          attempt_id = (attempt_of stamp job).attempt_id;
          status = "running";
          result = "";
          logs = logs;
        })
        now
        job).attempt_id
      ≡ (attempt_of stamp job).attempt_id
unfolding update_job start_attempt record_result finish_job attempt_of
first_attempt h stamp job logs now pending = elim (Bool-cases (job.attempt_id == "")) [
  | inl fresh ↦ rw (fresh, pending) (ground arith)
  | inr held ↦ rw (held, pending) (ground arith)
]

-- An update with the hash of the challenge completes a test job.
pub update_job_success :
    (h : String → String) (req : JobUpdate) (now : Time) (j : Job)
    → j.task ≡ "test"
    → req.status ≡ "completed"
    → req.result ≡ h j.challenge
    → req.result ≢ ""
    → ((update_job h req now j).status ≡ "completed")
      × ((update_job h req now j).result ≡ "success")
unfolding update_job start_attempt record_result finish_job
update_job_success h req now j test done right n = (
  ground (arith, test, done, right, n, eq_iff req.result "", eq_iff req.result (h j.challenge)),
  ground (
    arith,
    test,
    done,
    right,
    n,
    eq_iff req.result "",
    eq_iff req.result (h j.challenge),
    eq_iff j.task "test",
    eq_iff req.status "completed",
  ),
)

pub attempt_of-same :
    (stamp : ℕ) (job : Job)
    → ((attempt_of stamp job).id ≡ job.id)
      × ((attempt_of stamp job).task ≡ job.task)
      × ((attempt_of stamp job).challenge ≡ job.challenge)
unfolding attempt_of
attempt_of-same stamp job = (ground arith, ground arith, ground arith)

pub first-held :
    (site : Site) (stamp : ℕ) (job : Job) (w : Worker)
    → (job.attempt_id ≡ "")
      ⊎ ((running_update site w (attempt_of stamp job)).attempt_id ≡ job.attempt_id)
unfolding running_update attempt_of
first-held site stamp job w = elim (Bool-cases (job.attempt_id == "")) [
  | inl fresh ↦ inl ((eq_iff job.attempt_id "").0 fresh)
  | inr held ↦ inr (rw held refl)
]

-- The last update of a test job claims its completion, with the hash of its challenge.
pub final_test :
    (site : Site) (stamp : ℕ) (job : Job) (w : Worker)
    → job.task ≡ "test"
    → ((final_update site w (attempt_of stamp job)).status ≡ "completed")
      × ((final_update site w (attempt_of stamp job)).result ≡ site.sha256_hex job.challenge)
unfolding final_update report_of test_report
final_test site stamp job w test =
    let (_, task, challenge) = attempt_of-same stamp job in
    (
      ground (arith, task, test, eq_iff (attempt_of stamp job).task "test"),
      ground (arith, task, test, challenge, eq_iff (attempt_of stamp job).task "test"),
    )
