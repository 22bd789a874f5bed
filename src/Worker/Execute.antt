-- ===== src/Worker/Execute.antt =====
-- `executeJob` and `updateJobStatus` of internal/worker/worker.go.
use Prim.Native.String.{◌++◌ as ◌<>◌}
use forge_grid.Prelude.{
  ℕ, zero, suc, ltb, ◌+◌, ◌-◌, ◌%◌, ◌*◌, ◌^◌, ℤ, pos, negsuc, String, Bool, true, not, ◌==◌, none,
  some, List, [], ◌∷◌, push, nat_eq, if◌then◌else◌, decimal, show_int,
}
use forge_grid.Dict.{insert, delete}
use forge_grid.Coordinator.Models.{Job}
use forge_grid.Coordinator.Requests.{JobUpdate}
use forge_grid.Execution.{
  Profile, ProfileError, unknown_profile, not_in_path, Found, ProfileResult, profile, no_profile,
  get_profile, Paths, PathResult, path, no_abs, escapes, secure_workspace_path, ExecutionResult,
  Process, run,
}
use forge_grid.Worker.Hardware.{Machine, get_hardware_info}
use forge_grid.Worker.{Worker, Call, Net, WorkerJson, bearer, bytes_of}

-- What a job meets on the worker's machine: LookPath, the paths, the processes, the process id, and
-- whether the deadline of the run passed and whether its context was cancelled when Run returned.
pub record Site : Type 0 where
  pub machine : Machine
  pub look_path : String → Found
  pub paths : Paths
  pub launch : String → List String → List String → String → Process
  pub pid : ℕ
  -- For the timeout in nanoseconds.
  pub deadline_passed : ℤ → Bool
  pub context_cancelled : Bool
  -- The texts of an error of filepath.Abs and of SecureWorkspacePath.
  pub abs_text : String
  pub sha256_hex : String → String

-- What is reported of a job at its end.
pub record Report : Type 0 where
  pub status : String
  pub result : String
  pub logs : List String

unfoldable pub attempt_of : ℕ → Job → Job
attempt_of stamp job =
    if job.attempt_id == "" then record job { attempt_id = "attempt-" <> decimal stamp } else job

-- A new context under the job's id.
unfoldable pub register : String → Worker → Worker
register id w = record w {
  active_jobs = insert id w.contexts w.active_jobs;
  contexts = suc w.contexts;
}

-- The deferred function.
unfoldable pub unregister : String → Worker → Worker
unregister id w = record w { active_jobs = delete id w.active_jobs }

unfoldable pub start_logs : Site → Worker → List String
unfolding get_hardware_info
start_logs site w =
    let hw = get_hardware_info site.machine w.node_name in
    ("Job started on " <> (w.node_name <> (" (ID: " <> (w.worker_id <> ")"))))
    ∷ ("OS: " <> (hw.os <> (" | CPU: " <> hw.cpu_model)))
    ∷ ("PID: " <> decimal site.pid)
    ∷ []

unfoldable pub test_report : (String → String) → Job → Report
test_report sha256_hex job = record {
  status = "completed";
  result = sha256_hex job.challenge;
  logs =
      ("Received challenge: " <> job.challenge)
      ∷ ("Calculated SHA-256: " <> sha256_hex job.challenge)
      ∷ [];
}

unfoldable pub profile_text : ProfileError → String
profile_text (unknown_profile name) = "execution profile not found: " <> name
profile_text (not_in_path name text) =
    "executable for profile " <> (name <> (" not found in PATH: " <> text))

abbrev path_text : Site → PathResult → String
path_text site (path p) = ""
path_text site no_abs = site.abs_text
path_text site (escapes target) = "path escapes workspace: " <> target

abbrev result_text : ExecutionResult → String
result_text res = elim res.error [
  | none ↦ "ExitCode: " <> show_int res.exit_code
  | some text ↦ "ExitCode: " <> (show_int res.exit_code <> (", Error: " <> text))
]

abbrev failed_run : ExecutionResult → Bool
failed_run res = elim res.error [
  | some _ ↦ true
  | none ↦ elim res.exit_code [ pos n ↦ not (nat_eq n 0) | negsuc _ ↦ true ]
]

-- The status and the logs behind a run.
unfoldable pub run_report : Site → ℤ → ExecutionResult → Report
run_report site timeout res =
    if failed_run res
    then if site.deadline_passed timeout
      then record {
        status = "failed";
        result = result_text res;
        logs = push res.logs "Job timed out";
      }
      else if site.context_cancelled
      then record {
        status = "cancelled";
        result = result_text res;
        logs = push res.logs "Job cancelled by coordinator";
      }
      else record { status = "failed"; result = result_text res; logs = res.logs }
    else record { status = "completed"; result = result_text res; logs = res.logs }

-- An int64 with the given bits.
abbrev pub signed : ℕ → ℤ
signed m = if ltb m (2 ^ 63) then pos m else negsuc (2 ^ 64 - m - 1)

-- time.Duration(seconds) * time.Second, which wraps at 64 bits.
abbrev pub nanoseconds : ℤ → ℤ
nanoseconds (pos n) = signed (n * 10 ^ 9 % 2 ^ 64)
nanoseconds (negsuc n) = signed ((2 ^ 64 - (n + 1) * 10 ^ 9 % 2 ^ 64) % 2 ^ 64)

abbrev or_default : ℤ → ℤ
or_default (pos zero) = pos (5 * 60 * 10 ^ 9)
or_default t = t

unfoldable pub timeout_of : Job → ℤ
timeout_of job = or_default (nanoseconds job.timeout_seconds)

abbrev run_in : Site → Job → Profile → PathResult → Report
run_in site job p (path work_dir) =
    run_report site (timeout_of job) (run site.launch p job.args job.env work_dir)
run_in site job p other = record {
  status = "failed";
  result = "workspace error";
  logs = path_text site other ∷ [];
}

abbrev execute_with : Site → String → Job → ProfileResult → Report
execute_with site workspace job (no_profile e) = record {
  status = "failed";
  result = profile_text e;
  logs = profile_text e ∷ [];
}
execute_with site workspace job (profile p) =
    run_in site job p (secure_workspace_path site.paths workspace ".")

-- The branches on the task.
unfoldable pub report_of : Site → String → Job → Report
unfolding test_report run_report run timeout_of get_profile secure_workspace_path profile_text
report_of site workspace job =
    if job.task == "test"
    then test_report site.sha256_hex job
    else if job.task == "execute"
    then execute_with site workspace job (get_profile site.look_path job.profile)
    else record { status = "failed"; result = "unknown task"; logs = "Unsupported task type" ∷ [] }

-- The two updates of a job under its attempt.
unfoldable pub running_update : Site → Worker → Job → JobUpdate
unfolding start_logs
running_update site w job = record {
  attempt_id = job.attempt_id;
  status = "running";
  result = "";
  logs = start_logs site w;
}

unfoldable pub final_update : Site → Worker → Job → JobUpdate
unfolding report_of
final_update site w job =
    let report = report_of site w.workspace job in
    record {
      attempt_id = job.attempt_id;
      status = report.status;
      result = report.result;
      logs = report.logs;
    }

module _ {W : Type 0} (net : Net W) (json : WorkerJson) where
  unfoldable pub update_call : String → JobUpdate → Worker → Call
  update_call id update w = record {
    client = w.client;
    method = "POST";
    base = w.coordinator_url;
    target = "/api/jobs/" <> id;
    authorization = bearer w;
    body = bytes_of (json.marshal_update update);
  }

  -- The answer is not read.
  unfoldable pub update_job_status : String → JobUpdate → Worker → W → W
  unfolding update_call
  update_job_status id update w s = (net (update_call id update w) s).0

  -- The number is the clock's, for the attempt id.
  unfoldable pub execute_job : Site → ℕ → Job → Worker → W → W × Worker
  unfolding attempt_of register unregister update_job_status running_update final_update
  execute_job site stamp given w s =
      let job = attempt_of stamp given in
      let w1 = register job.id w in
      let s1 = update_job_status job.id (running_update site w1 job) w1 s in
      let s2 = update_job_status job.id (final_update site w1 job) w1 s1 in
      (s2, unregister job.id w1)
