-- ===== src/Coordinator/Jobs/Update.antt =====
-- What an update by a worker, or a cancellation, does to a job.
use forge_grid.Prelude.{
  String, ◌≡◌, ◌≢◌, refl, sym, ap, ◌∙◌, inl, inr, ◌↔◌, ◌⊎◌, List, [], ◌∷◌, ◌++◌, arith, ◌==◌,
  eq_iff, Bool-cases,
}
use forge_grid.Bridge.Models.{Time}
use forge_grid.Coordinator.Models.{Job}
use forge_grid.Coordinator.Requests.{JobUpdate}
use forge_grid.Coordinator.Jobs.{start_attempt, record_result, finish_job, update_job, cancel_job}

-- What a job is about, and what becomes of its log and of its attempt.
pub record IsHeir (before after : Job) : Type 0 where
  pub same_id : after.id ≡ before.id
  pub same_worker : after.worker_id ≡ before.worker_id
  pub same_task : after.task ≡ before.task
  pub same_challenge : after.challenge ≡ before.challenge
  pub same_profile : after.profile ≡ before.profile
  pub same_args : after.args ≡ before.args
  pub same_env : after.env ≡ before.env
  pub same_timeout : after.timeout_seconds ≡ before.timeout_seconds
  pub attempt_kept : before.attempt_id ≢ "" → after.attempt_id ≡ before.attempt_id
  pub log_extended : (more : List String) × (after.logs ≡ before.logs ++ more)

append-nil : (xs : List String) → xs ++ [] ≡ xs
append-nil [] = refl
append-nil (x ∷ xs) = ap (λ (ys : List String). x ∷ ys) (append-nil xs)

append_assoc : (xs ys zs : List String) → (xs ++ ys) ++ zs ≡ xs ++ (ys ++ zs)
append_assoc [] ys zs = refl
append_assoc (x ∷ xs) ys zs = ap (λ (l : List String). x ∷ l) (append_assoc xs ys zs)

pub IsHeir-refl : (j : Job) → IsHeir j j
IsHeir-refl j = record {
  same_id = refl;
  same_worker = refl;
  same_task = refl;
  same_challenge = refl;
  same_profile = refl;
  same_args = refl;
  same_env = refl;
  same_timeout = refl;
  attempt_kept = λ _. refl;
  log_extended = ([], sym (append-nil j.logs));
}

pub cancel_job-IsHeir : (now : Time) (j : Job) → IsHeir j (cancel_job now j)
unfolding cancel_job
cancel_job-IsHeir now j = record {
  same_id = refl;
  same_worker = refl;
  same_task = refl;
  same_challenge = refl;
  same_profile = refl;
  same_args = refl;
  same_env = refl;
  same_timeout = refl;
  attempt_kept = λ _. refl;
  log_extended = ([], sym (append-nil j.logs));
}

start_attempt_logs :
    (req : JobUpdate) (now : Time) (j : Job) → (start_attempt req now j).logs ≡ j.logs
unfolding start_attempt
start_attempt_logs req now j = ground arith

record_result_logs :
    (h : String → String) (req : JobUpdate) (j : Job)
    → (more : List String) × ((record_result h req j).logs ≡ j.logs ++ more)
unfolding record_result
record_result_logs h req j = elim (Bool-cases (req.result == "")) [
  | inl e ↦ ([], rw e (sym (append-nil j.logs)))
  | inr e ↦ elim (Bool-cases (req.result == h j.challenge)) [
    | inl same ↦ ([], rw (e, same, append-nil) (ground arith))
    | inr other ↦ elim (Bool-cases (j.task == "test")) [
      | inr t ↦ ([], rw (e, other, t, append-nil) refl)
      | inl t ↦ elim (Bool-cases (req.status == "completed")) [
        | inr c ↦ ([], rw (e, other, t, c, append-nil) refl)
        | inl c ↦ ("ERROR: Coordinator rejected challenge result" ∷ [], rw (e, other, t, c) refl)
      ]
    ]
  ]
]

finish_job_logs :
    (req : JobUpdate) (now : Time) (j : Job) → (finish_job req now j).logs ≡ j.logs ++ req.logs
unfolding finish_job
finish_job_logs req now j = ground arith

finish_job_status :
    (req : JobUpdate) (now : Time) (j : Job) → (finish_job req now j).status ≡ j.status
unfolding finish_job
finish_job_status req now j = ground arith

-- The job on which the result is recorded.
abbrev moved : JobUpdate → Time → Job → Job
moved req now j = record (start_attempt req now j) { status = req.status }

update_job_logs :
    (h : String → String) (req : JobUpdate) (now : Time) (j : Job)
    → (more : List String) × ((update_job h req now j).logs ≡ j.logs ++ more)
unfolding update_job
update_job_logs h req now j =
    let (more, e) = record_result_logs h req (moved req now j) in
    (
      more ++ req.logs,
      finish_job_logs req now (record_result h req (moved req now j))
          ∙ ap (λ (l : List String). l ++ req.logs)
              (e ∙ ap (λ (l : List String). l ++ more) (start_attempt_logs req now j))
          ∙ append_assoc j.logs more req.logs,
    )

pub update_job-IsHeir :
    (h : String → String) (req : JobUpdate) (now : Time) (j : Job)
    → IsHeir j (update_job h req now j)
unfolding update_job start_attempt record_result finish_job
update_job-IsHeir h req now j = record {
  same_id = ground arith;
  same_worker = ground arith;
  same_task = ground arith;
  same_challenge = ground arith;
  same_profile = ground arith;
  same_args = ground arith;
  same_env = ground arith;
  same_timeout = ground arith;
  attempt_kept = λ n. ground (arith, eq_iff j.attempt_id "");
  log_extended = update_job_logs h req now j;
}

record_result_verdict :
    (h : String → String) (req : JobUpdate) (j : Job)
    → j.task ≡ "test"
    → j.status ≡ "completed"
    → req.status ≡ "completed"
    → req.result ≢ ""
    → ((record_result h req j).status ≡ "completed") ↔ (req.result ≡ h j.challenge)
unfolding record_result
record_result_verdict h req j t o c n = (
  λ e. ground (
    arith,
    eq_iff req.result (h j.challenge),
    eq_iff j.task "test",
    eq_iff req.status "completed",
    eq_iff req.result "",
    eq_iff "failed" "completed",
  ),
  λ e. ground (
    arith,
    eq_iff req.result (h j.challenge),
    eq_iff j.task "test",
    eq_iff req.status "completed",
    eq_iff req.result "",
  ),
)

update_job_verified :
    (h : String → String) (req : JobUpdate) (now : Time) (j : Job)
    → j.task ≡ "test"
    → req.status ≡ "completed"
    → req.result ≢ ""
    → ((update_job h req now j).status ≡ "completed") ↔ (req.result ≡ h j.challenge)
unfolding update_job start_attempt
update_job_verified h req now j t c n =
    let task_kept : (moved req now j).task ≡ j.task = ground arith in
    let challenge_kept : (moved req now j).challenge ≡ j.challenge = ground arith in
    let verdict = record_result_verdict h req (moved req now j) (task_kept ∙ t) c c n in
    let status_kept = finish_job_status req now (record_result h req (moved req now j)) in
    (
      λ e. verdict.0 (sym status_kept ∙ e) ∙ ap h challenge_kept,
      λ e. status_kept ∙ verdict.1 (e ∙ sym (ap h challenge_kept)),
    )

update_job_unverified :
    (h : String → String) (req : JobUpdate) (now : Time) (j : Job)
    → req.status ≡ "completed"
    → req.result ≡ ""
    → (update_job h req now j).status ≡ "completed"
unfolding update_job record_result
update_job_unverified h req now j c e =
    finish_job_status req now (record_result h req (moved req now j))
    ∙ ground (arith, eq_iff req.result "", c, e)

-- An update of a test job that claims completion leaves the job completed exactly when its result is
-- the hash of the job's challenge or is empty.
pub update_job_verdict :
    (h : String → String) (req : JobUpdate) (now : Time) (j : Job)
    → j.task ≡ "test"
    → req.status ≡ "completed"
    → ((update_job h req now j).status ≡ "completed")
      ↔ ((req.result ≡ "") ⊎ (req.result ≡ h j.challenge))
update_job_verdict h req now j t c = elim (Bool-cases (req.result == "")) [
  | inl bare ↦
      let e = (eq_iff req.result "").0 bare in
      (λ _. inl e, λ _. update_job_unverified h req now j c e)
  | inr given ↦
      let n : req.result ≢ "" = λ e. ground (arith, e, given, eq_iff req.result "") in
      let verified = update_job_verified h req now j t c n in
      (
        λ e. inr (verified.0 e),
        λ e. elim e [ inl bare ↦ absurd (n bare) | inr right ↦ verified.1 right ],
      )
]

-- A cancellation does not hold against a later update: the update gives the job the status and the
-- result that it would have given it had it not been cancelled.
pub cancel_job_overwritten :
    (h : String → String) (req : JobUpdate) (now earlier : Time) (j : Job)
    → ((update_job h req now (cancel_job earlier j)).status ≡ (update_job h req now j).status)
      × ((update_job h req now (cancel_job earlier j)).result ≡ (update_job h req now j).result)
unfolding update_job start_attempt record_result finish_job cancel_job
cancel_job_overwritten h req now earlier j = (ground arith, ground arith)
