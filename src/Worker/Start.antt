-- ===== src/Worker/Start.antt =====
-- The worker mode of main.go, and `ResetCredentials` and `Start` of internal/worker/worker.go.
use forge_grid.Prelude.{String, Bool, true, false, not, ◌&&◌, ◌||◌, ◌==◌, none, some, if◌then◌else◌}
use forge_grid.Disk.{FileSystem}
use forge_grid.Worker.{Worker, Net, WorkerJson, new_worker, load_creds}
use forge_grid.Worker.Hardware.{Machine}
use forge_grid.Worker.Pair.{PairResult, is_paired, unreachable, pairing_failed, bad_answer, pair}

-- os.Remove: whether the file existed, and whether there was an error.
pub record Removal (D : Type 0) : Type 0 where
  pub remove : String → D → D × Bool
  pub exists : String → D → Bool

-- A file that does not exist is no error.
unfoldable pub reset_credentials : {D : Type 0} → Removal D → String → D → D × Bool
reset_credentials r path d =
    let (d', removed) = r.remove path d in if r.exists path d then (d', removed) else (d, true)

pub record WorkerFlags : Type 0 where
  pub node_name : String
  pub coordinator : String
  pub code : String
  pub insecure : Bool
  pub fingerprint : String

pub data Started : Type 0 where
  runs : Worker → Started
  no_coordinator no_fingerprint : Started
  not_paired : PairResult → Started

abbrev is_success : PairResult → Bool
is_success is_paired = true
is_success unreachable = false
is_success (pairing_failed code message) = false
is_success bad_answer = false

module _ {W D : Type 0} (net : Net W) (os : FileSystem D) (json : WorkerJson) where
  abbrev after_pair : W × Worker × D × PairResult → W × D × Started
  after_pair (s, w, d, result) = (s, d, if is_success result then runs w else not_paired result)

  unfoldable pub first_start : String → WorkerFlags → Machine → Worker → W → D → W × D × Started
  unfolding pair
  first_start path flags machine w s d =
      if flags.coordinator == "" || flags.code == ""
      then (s, d, no_coordinator)
      else if not flags.insecure && flags.fingerprint == ""
      then (s, d, no_fingerprint)
      else after_pair
          (pair net os json path flags.coordinator flags.code flags.fingerprint machine w s d)

  -- Up to w.Start().
  unfoldable pub start_worker : String → WorkerFlags → Machine → W → D → W × D × Started
  unfolding new_worker load_creds first_start
  start_worker path flags machine s d =
      let w = new_worker flags.node_name "./forgegrid-workspace" flags.insecure in
      elim (load_creds os json path d w) [
        | some loaded ↦ (s, d, runs loaded)
        | none ↦ first_start path flags machine w s d
      ]
