-- ===== src/Coordinator/Store.antt =====
-- internal/store/store.go. The maps hold no nil pointer. The handlers drop the error of Save.
use forge_grid.Prelude.{String, Bool, true, false, Option, none, some, [], if◌then◌else◌}
use forge_grid.Dict.{Dict}
use forge_grid.Disk.{FileSystem}
use forge_grid.Disk.Atomic.{atomic_write}
use forge_grid.Coordinator.Models.{WorkerState, Job, CoordinatorState}

pub record Store (D : Type 0) : Type 0 where
  pub workers : Dict WorkerState
  pub jobs : Dict Job
  pub config : CoordinatorState
  pub disk : D

-- encoding/json on the three values of the store. Unmarshal writes into the value it is given, and
-- its error is dropped.
pub record StoreJson : Type 0 where
  pub marshal_config : CoordinatorState → Option String
  pub marshal_workers : Dict WorkerState → Option String
  pub marshal_jobs : Dict Job → Option String
  pub unmarshal_config : String → CoordinatorState → CoordinatorState
  pub unmarshal_workers : String → Dict WorkerState → Dict WorkerState
  pub unmarshal_jobs : String → Dict Job → Dict Job

abbrev pub config_file : String
config_file = "coordinator.json"

abbrev pub workers_file : String
workers_file = "workers.json"

abbrev pub jobs_file : String
jobs_file = "jobs.json"

abbrev pub empty_config : CoordinatorState
empty_config = record {
  identity = "";
  pairing_code = "";
  pairing_expiry = 0;
  pairing_failures = 0;
  cert_pem = [];
  key_pem = [];
}

-- One file of `load`: what could not be read leaves the value as it is.
abbrev pub read_into {ℓ} : {A : Type ℓ} → (String → A → A) → Option String → A → A
read_into unmarshal none a = a
read_into unmarshal (some text) a = unmarshal text a

module _ {D : Type 0} (os : FileSystem D) (json : StoreJson) where
  unfoldable pub save_file : String → Option String → D → D × Bool
  save_file path none d = (d, false)
  save_file path (some text) d = atomic_write os path text d

  unfoldable pub save_disk : Store D → D × Bool
  unfolding save_file
  save_disk s =
      let (d1, saved_config) = save_file config_file (json.marshal_config s.config) s.disk in
      let (d2, saved_workers) = save_file workers_file (json.marshal_workers s.workers) d1 in
      let (d3, saved_jobs) = save_file jobs_file (json.marshal_jobs s.jobs) d2 in
      if saved_config then if saved_workers then (d3, saved_jobs) else (d2, false) else (d1, false)

  -- Save, as its callers use it.
  unfoldable pub save : Store D → Store D
  unfolding save_disk
  save s = record s { disk = (save_disk s).0 }

  unfoldable pub load : Store D → Store D
  load s = record s {
    config = read_into json.unmarshal_config (os.read_file config_file s.disk) s.config;
    workers = read_into json.unmarshal_workers (os.read_file workers_file s.disk) s.workers;
    jobs = read_into json.unmarshal_jobs (os.read_file jobs_file s.disk) s.jobs;
  }

  -- NewStore: the Boolean says whether MkdirAll succeeded.
  unfoldable pub new_store : Bool → D → Option (Store D)
  unfolding load
  new_store false d = none
  new_store true d =
      some (load (record { workers = []; jobs = []; config = empty_config; disk = d }))
