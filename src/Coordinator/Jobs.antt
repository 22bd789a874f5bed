-- ===== src/Coordinator/Jobs.antt =====
-- internal/coordinator/handlers.go: `handleTestJob`, `handleListJobs` and `handleJobAction`.
pub mod Update
pub mod Action
pub mod Offer
use forge_grid.Prelude.{
  ℕ, ℤ, pos, String, Bool, true, false, not, ◌&&◌, ◌||◌, ◌==◌, Option, none, some, List, [], ◌∷◌,
  ◌++◌, length, get_elem?, get_or, split, ltb, leb, nat_eq, if◌then◌else◌,
}
use forge_grid.Dict.{Dict, lookup, insert, values}
use forge_grid.Bridge.Models.{Time}
use forge_grid.Coordinator.Models.{WorkerState, Job}
use forge_grid.Coordinator.Store.{Store, save}
use forge_grid.Coordinator.Workers.{authorized, unauthorized}
use forge_grid.Coordinator.Requests.{
  Request, Reply, success, write_error, JobUpdate, Parsed, unparsed, parsed, Libraries, token_of,
  empty, one_job, job_list, job_id,
}

unfoldable pub test_job : String → String → String → Job
test_job id worker_id challenge = record {
  id = id;
  attempt_id = "";
  worker_id = worker_id;
  task = "test";
  status = "pending";
  start_time = none;
  end_time = none;
  result = "";
  logs = [];
  profile = "";
  args = [];
  env = [];
  timeout_seconds = pos 0;
  challenge = challenge;
}

-- The jobs that a worker is offered.
unfoldable pub pending_jobs : String → List Job → List Job
pending_jobs worker_id [] = []
pending_jobs worker_id (j ∷ jobs) =
    let rest = pending_jobs worker_id jobs in
    if j.worker_id == worker_id && j.status == "pending" then j ∷ rest else rest

-- The parts of an update, in the order of handleJobAction.
unfoldable pub start_attempt : JobUpdate → Time → Job → Job
start_attempt req now job =
    if job.status == "pending" && req.status == "running"
    then record job {
      start_time = some now;
      attempt_id = if job.attempt_id == "" then req.attempt_id else job.attempt_id;
    }
    else job

unfoldable pub record_result : (String → String) → JobUpdate → Job → Job
record_result sha256_hex req job =
    if req.result == ""
    then job
    else if job.task == "test" && req.status == "completed"
    then if not (req.result == sha256_hex job.challenge)
      then record job {
        status = "failed";
        result = "challenge verification failed";
        logs = job.logs ++ ("ERROR: Coordinator rejected challenge result" ∷ []);
      }
      else record job { result = "success" }
    else record job { result = req.result }

abbrev pub is_final : String → Bool
is_final status = status == "completed" || (status == "failed" || status == "cancelled")

unfoldable pub finish_job : JobUpdate → Time → Job → Job
finish_job req now job =
    let logged = record job { logs = job.logs ++ req.logs } in
    if is_final req.status then record logged { end_time = some now } else logged

unfoldable pub update_job : (String → String) → JobUpdate → Time → Job → Job
unfolding start_attempt record_result finish_job
update_job sha256_hex req now job =
    finish_job req now
      (record_result sha256_hex req (record (start_attempt req now job) { status = req.status }))

unfoldable pub cancel_job : Time → Job → Job
cancel_job now job = record job { status = "cancelled"; end_time = some now }

module _ {D : Type 0} (libs : Libraries D) where
  open libs use {os, store_json, request_json, sha256_hex}

  abbrev Handler : Type 0
  Handler = Store D → Store D × Reply

  -- The two random texts are those of the id and of the challenge.
  unfoldable pub add_test_job : String → String → String → Handler
  unfolding test_job
  add_test_job random_id challenge worker_id s = elim (lookup worker_id s.workers) [
    | none ↦ (s, write_error 404 "NOT_FOUND" "Worker not found" "")
    | some _ ↦
        let job = test_job (job_id random_id) worker_id challenge in
        (
          save os store_json (record s { jobs = insert (job_id random_id) job s.jobs }),
          success (one_job job),
        )
  ]

  unfoldable pub handle_test_job : String → String → Request → Handler
  handle_test_job random_id challenge r s = elim (request_json.decode_test 1024 r.body) [
    | unparsed text ↦ (s, write_error 400 "BAD_REQUEST" "Malformed JSON" text)
    | parsed worker_id ↦ add_test_job random_id challenge worker_id s
  ]

  unfoldable pub handle_list_jobs : Request → Handler
  unfolding pending_jobs
  handle_list_jobs r s =
      if r.worker_query == ""
      then (s, success (job_list (values s.jobs)))
      else elim (authorized sha256_hex r.worker_query (token_of r) s.workers) [
        | none ↦ (s, unauthorized)
        | some _ ↦ (s, success (job_list (pending_jobs r.worker_query (values s.jobs))))
      ]

  -- The job is changed in the store and sent back.
  unfoldable pub put_job : String → Job → Handler
  put_job id job s =
      (save os store_json (record s { jobs = insert id job s.jobs }), success (one_job job))

  unfoldable pub apply_update : String → Job → Parsed JobUpdate → Time → Handler
  unfolding update_job
  apply_update id job (unparsed text) now s = (s, write_error 400 "BAD_REQUEST" "Malformed JSON" "")
  apply_update id job (parsed req) now s =
      if not (job.attempt_id == "") && not (req.attempt_id == job.attempt_id)
      then (s, write_error 409 "CONFLICT" "Invalid attempt ID" "")
      else put_job id (update_job sha256_hex req now job) s

  unfoldable pub post_job : List String → String → Job → Request → Time → Handler
  unfolding cancel_job
  post_job parts id job r now s =
      if nat_eq (length parts) 5 && get_or (get_elem? parts 4) "" == "cancel"
      then put_job id (cancel_job now job) s
      else elim (authorized sha256_hex job.worker_id (token_of r) s.workers) [
        | none ↦ (s, unauthorized)
        | some _ ↦ apply_update id job (request_json.decode_update 65536 r.body) now s
      ]

  -- Behind the path's third slash stands the job's id.
  unfoldable pub job_action : List String → String → Request → Time → Handler
  job_action parts id r now s = elim (lookup id s.jobs) [
    | none ↦ (s, write_error 404 "NOT_FOUND" "Job not found" "")
    | some job ↦
        if r.method == "GET"
        then (s, success (one_job job))
        else if r.method == "POST"
        then post_job parts id job r now s
        else (s, success empty)
  ]

  unfoldable pub handle_job_action : Request → Time → Handler
  unfolding split
  handle_job_action r now s = elim (get_elem? (split b'/' r.path) 3) [
    | none ↦ (s, write_error 400 "BAD_REQUEST" "Invalid path" "")
    | some id ↦ job_action (split b'/' r.path) id r now s
  ]
