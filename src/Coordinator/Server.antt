-- ===== src/Coordinator/Server.antt =====
-- The routes of internal/coordinator/coordinator.go: every request is one step.
pub mod Registry
pub mod Invariant
pub mod Tokens
pub mod Shut
pub mod Guessed
use forge_grid.Prelude.{ℕ, String, ◌==◌, none, some, if◌then◌else◌, cut_prefix}
use forge_grid.Bridge.Models.{Time}
use forge_grid.Coordinator.Store.{Store}
use forge_grid.Coordinator.Requests.{
  Request, Reply, success, Parsed, Libraries, empty, started, coordinator_status,
}
use forge_grid.Coordinator.Pairing.{handle_generate_code, handle_pair, generate_pairing_code}
use forge_grid.Coordinator.Workers.{handle_heartbeat, handle_list_workers}
use forge_grid.Coordinator.Jobs.{handle_test_job, handle_list_jobs, handle_job_action}
use forge_grid.Coordinator.Manifest.{Manifest, Draw, handle_manifest}

pub data Route : Type 0 where
  to_start to_status to_code to_pair to_heartbeat to_workers : Route
  to_test to_jobs to_job to_manifest to_ui : Route

-- The patterns that Start registers: the longest one wins.
unfoldable pub route_of : String → Route
route_of path =
    if path == "/api/coordinator/start"
    then to_start
    else if path == "/api/coordinator/status"
    then to_status
    else if path == "/api/pairing/code"
    then to_code
    else if path == "/api/workers/pair"
    then to_pair
    else if path == "/api/workers/heartbeat"
    then to_heartbeat
    else if path == "/api/workers"
    then to_workers
    else if path == "/api/jobs/test"
    then to_test
    else if path == "/api/jobs"
    then to_jobs
    else if path == "/api/jobs/manifest"
    then to_manifest
    else elim (cut_prefix "/api/jobs/" path) [ none ↦ to_ui | some _ ↦ to_job ]

-- What the coordinator knows of itself, and what the handlers draw for one request.
pub record Context : Type 0 where
  pub ip : String
  pub fingerprint : String
  pub decode_yaml : ℕ → String → Parsed Manifest

pub record Randomness : Type 0 where
  pub code_bytes : ℕ × ℕ × ℕ × ℕ
  pub text : String
  pub secret : String
  pub draw : ℕ → Draw

module _ {D : Type 0} (libs : Libraries D) (context : Context) where
  unfoldable pub handle_start : Store D → Store D × Reply
  handle_start s = (s, success started)

  unfoldable pub handle_status : Store D → Store D × Reply
  handle_status s =
      (s, success (coordinator_status context.ip s.config.identity context.fingerprint))

  -- The file server of the dashboard changes nothing.
  unfoldable pub handle : Route → Randomness → Request → Time → Store D → Store D × Reply
  unfolding handle_start handle_status
  handle to_start random r now s = handle_start s
  handle to_status random r now s = handle_status s
  handle to_code random r now s =
      let (b0, b1, b2, b3) = random.code_bytes in
      handle_generate_code libs (generate_pairing_code b0 b1 b2 b3) r now s
  handle to_pair random r now s = handle_pair libs random.secret random.text r now s
  handle to_heartbeat random r now s = handle_heartbeat libs r now s
  handle to_workers random r now s = handle_list_workers libs s
  handle to_test random r now s = handle_test_job libs random.text random.secret r s
  handle to_jobs random r now s = handle_list_jobs libs r s
  handle to_job random r now s = handle_job_action libs r now s
  handle to_manifest random r now s = handle_manifest libs context.decode_yaml random.draw r s
  handle to_ui random r now s = (s, success empty)

  unfoldable pub serve : Randomness → Request → Time → Store D → Store D × Reply
  unfolding handle route_of
  serve random r now s = handle (route_of r.path) random r now s
