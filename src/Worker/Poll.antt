-- ===== src/Worker/Poll.antt =====
-- `pollJobs` and `cancelJob` of internal/worker/worker.go.
pub mod Started
use Prim.Native.String.{◌++◌}
use forge_grid.Prelude.{
  ℕ, String, Bool, true, false, not, Option, none, some, List, [], ◌∷◌, nat_eq, if◌then◌else◌, ◌==◌,
  get_or,
}
use forge_grid.Dict.{Dict, lookup, delete}
use forge_grid.Coordinator.Models.{Job}
use forge_grid.Worker.{Worker, Call, Answer, Net, WorkerJson, bearer}

unfoldable pub cancel_job : String → Worker → Worker
cancel_job id w = elim (lookup id w.active_jobs) [
  | none ↦ w
  | some context ↦ record w {
    active_jobs = delete id w.active_jobs;
    cancelled = context ∷ w.cancelled;
  }
]

abbrev is_active : Option ℕ → Bool
is_active none = false
is_active (some _) = true

-- The loop over the jobs: the worker behind it, and the jobs for which it starts executeJob. Each of
-- them registers itself only once it runs.
unfoldable pub poll_loop : List Job → Worker → Worker × List Job
unfolding cancel_job
poll_loop [] w = (w, [])
poll_loop (job ∷ jobs) w =
    let after = if job.status == "cancelled" then cancel_job job.id w else w in
    let (w', started) = poll_loop jobs after in
    if job.status == "cancelled"
    then (w', started)
    else if job.status == "pending"
    then (w', if is_active (lookup job.id w.active_jobs) then started else job ∷ started)
    else (w', started)

module _ {W : Type 0} (net : Net W) (json : WorkerJson) where
  unfoldable pub poll_call : Worker → Call
  poll_call w = record {
    client = w.client;
    method = "GET";
    base = w.coordinator_url;
    target = "/api/jobs?worker_id=" ++ w.worker_id;
    authorization = bearer w;
    body = "";
  }

  -- The jobs of an answer: none where pollJobs returns early.
  unfoldable pub jobs_of : Option Answer → List Job
  jobs_of none = []
  jobs_of (some a) = if nat_eq a.status 200 then get_or (json.decode_jobs a.body) [] else []

  unfoldable pub poll_jobs : Worker → W → W × Worker × List Job
  unfolding poll_call jobs_of poll_loop
  poll_jobs w s =
      let (s', answer) = net (poll_call w) s in
      let (w', started) = poll_loop (jobs_of answer) w in (s', w', started)
