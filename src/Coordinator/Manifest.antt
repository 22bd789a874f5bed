-- ===== src/Coordinator/Manifest.antt =====
-- internal/manifest/manifest.go and `SubmitManifest` of internal/director/director.go.
pub mod Dispatch
use Prim.Native.String.{◌++◌}
use forge_grid.Prelude.{
  ℕ, suc, ℤ, String, code, Bool, true, false, not, ◌&&◌, ◌||◌, ◌==◌, List, [], ◌∷◌, is_blank,
  Option, none, some, ltb, leb, nat_eq, if◌then◌else◌,
}
use forge_grid.Dict.{Dict, insert}
use forge_grid.Coordinator.Models.{WorkerState, Job}
use forge_grid.Coordinator.Store.{Store, save}
use forge_grid.Coordinator.Requests.{
  Request, Reply, success, write_error, Parsed, unparsed, parsed, Libraries, dispatched, job_id,
}

pub record Requirements : Type 0 where
  pub min_ram_gb : ℤ
  pub os : String
  pub min_cores : ℤ

pub record Execution : Type 0 where
  pub profile : String
  pub args : List String
  pub env : Dict String
  pub timeout_seconds : ℤ

pub record Task : Type 0 where
  pub description : String
  pub requirements : Requirements
  pub execution : Execution
  pub artefacts : List String

pub record Manifest : Type 0 where
  pub project : String
  pub tasks : Dict Task

pub data ManifestError : Type 0 where
  no_project no_tasks : ManifestError
  no_profile : String → ManifestError
  bad_yaml : String → ManifestError

-- The loop of Parse: the first task without a profile.
unfoldable pub find_unprofiled : Dict Task → Option String
unfolding is_blank
find_unprofiled [] = none
find_unprofiled ((name, task) ∷ tasks) =
    if is_blank task.execution.profile then some name else find_unprofiled tasks

-- The texts of the errors.
unfoldable pub error_text : ManifestError → String
error_text no_project = "project name is required"
error_text no_tasks = "at least one task is required"
error_text (no_profile name) = "task '" ++ (name ++ "' must define an execution profile")
error_text (bad_yaml text) = "failed to parse manifest: " ++ text

unfoldable pub no_worker_text : String → String
no_worker_text name = "no eligible online worker found for task '" ++ (name ++ "'")

-- The manifest, or the error.
pub data Checked : Type 0 where
  rejected : ManifestError → Checked
  accepted : Manifest → Checked

unfoldable pub check_tasks : Manifest → Option String → Checked
check_tasks m none = accepted m
check_tasks m (some name) = rejected (no_profile name)

abbrev pub has_tasks : {V : Type 0} → Dict V → Bool
has_tasks [] = false
has_tasks (_ ∷ _) = true

-- Parse, on what the YAML decoder with KnownFields made of the body.
unfoldable pub parse : Parsed Manifest → Checked
unfolding check_tasks
parse (unparsed text) = rejected (bad_yaml text)
parse (parsed m) =
    if m.project == ""
    then rejected no_project
    else if not (has_tasks m.tasks)
    then rejected no_tasks
    else check_tasks m (find_unprofiled m.tasks)

abbrev pub is_eligible : Requirements → WorkerState → Bool
is_eligible req w = w.status == "online" && (req.os == "" || w.os == req.os)

-- The inner loop of SubmitManifest: the id of the first eligible worker, or "".
unfoldable pub assign : Requirements → List WorkerState → String
assign req [] = ""
assign req (w ∷ workers) = if is_eligible req w then w.id else assign req workers

unfoldable pub execute_job : String → String → Task → Job
execute_job id worker_id task = record {
  id = id;
  attempt_id = "";
  worker_id = worker_id;
  task = "execute";
  status = "pending";
  start_time = none;
  end_time = none;
  result = "";
  logs = [];
  profile = task.execution.profile;
  args = task.execution.args;
  env = task.execution.env;
  timeout_seconds = task.execution.timeout_seconds;
  challenge = "";
}

-- What a pass of the loop over the tasks draws: the random text of the job's id, and the order in
-- which `range` visits the workers.
pub record Draw : Type 0 where
  pub random_id : String
  pub visit : Dict WorkerState → List WorkerState

-- The loop over the tasks, from the pass of the given number on: the jobs, and the task for which
-- there is no worker.
unfoldable pub submit_tasks :
    (ℕ → Draw) → Dict WorkerState → ℕ → Dict Task → Dict Job → Dict Job × Option String
unfolding assign execute_job
submit_tasks draw workers n [] jobs = (jobs, none)
submit_tasks draw workers n ((name, task) ∷ tasks) jobs =
    let worker_id = assign task.requirements ((draw n).visit workers) in
    let id = job_id (draw n).random_id in
    let later =
      submit_tasks draw workers (suc n) tasks (insert id (execute_job id worker_id task) jobs) in
    if worker_id == "" then (jobs, some name) else later

module _ {D : Type 0} (libs : Libraries D) where
  open libs use {os, store_json}

  -- `none` is the result nil. The store is saved only then.
  unfoldable pub submit_manifest : (ℕ → Draw) → Manifest → Store D → Store D × Option String
  unfolding submit_tasks
  submit_manifest draw m s =
      let (jobs, failed) = submit_tasks draw s.workers 0 m.tasks s.jobs in
      let s' = record s { jobs = jobs } in
      elim failed [ none ↦ (save os store_json s', none) | some name ↦ (s', some name) ]

  unfoldable pub dispatch : (ℕ → Draw) → Checked → Store D → Store D × Reply
  unfolding submit_manifest
  dispatch draw (rejected e) s =
      (s, write_error 400 "BAD_REQUEST" "Failed to parse manifest" (error_text e))
  dispatch draw (accepted m) s =
      let (s', failed) = submit_manifest draw m s in
      elim failed [
        | none ↦ (s', success (dispatched m.project))
        | some name ↦ (
          s',
          write_error 503 "SERVICE_UNAVAILABLE" "Failed to dispatch manifest tasks"
              (no_worker_text name),
        )
      ]

  unfoldable pub handle_manifest :
      (ℕ → String → Parsed Manifest) → (ℕ → Draw) → Request → Store D → Store D × Reply
  unfolding dispatch parse
  handle_manifest decode_yaml draw r s =
      if not (r.method == "POST")
      then (s, write_error 405 "METHOD_NOT_ALLOWED" "Method not allowed" "")
      else dispatch draw (parse (decode_yaml 65536 r.body)) s
