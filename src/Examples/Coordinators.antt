-- ===== src/Examples/Coordinators.antt =====
-- A coordinator with one worker and one test job.
use forge_grid.Prelude.{◌≡◌, ◌↔◌, ◌⊎◌, refl, String, none, some, [], ◌∷◌, pos}
use forge_grid.Dict.{lookup}
use forge_grid.Disk.Memory.{Memory, memory}
use forge_grid.Coordinator.Models.{WorkerState, Job}
use forge_grid.Coordinator.Store.{Store, StoreJson, empty_config}
use forge_grid.Coordinator.Requests.{Request, PairRequest, Heartbeat, JobUpdate, parsed, Libraries}
use forge_grid.Coordinator.Jobs.{update_job, handle_job_action}
use forge_grid.Coordinator.Jobs.Update.{IsHeir, update_job_verdict}
use forge_grid.Coordinator.Jobs.Action.{Changed, handle_job_action_cases, handle_job_action-IsHeir}

abbrev pub json : StoreJson
json = record {
  marshal_config = λ c. some "c";
  marshal_workers = λ m. some "w";
  marshal_jobs = λ m. some "j";
  unmarshal_config = λ text c. c;
  unmarshal_workers = λ text m. m;
  unmarshal_jobs = λ text m. m;
}

abbrev pub enrolment : PairRequest
enrolment = record {
  code = "123456";
  node_name = "rig";
  os = "linux";
  os_version = "6";
  cpu_model = "x";
  architecture = "amd64";
  physical_cores = pos 4;
  logical_processors = pos 8;
  total_ram = 16;
  available_ram = 8;
  free_workspace_disk = 100;
}

abbrev pub beat_request : Heartbeat
beat_request = record { worker_id = "w1"; available_ram = 7; free_workspace_disk = 90 }

abbrev pub update : JobUpdate
update = record { attempt_id = "a1"; status = "completed"; result = "secret"; logs = [] }

abbrev pub libs : Libraries Memory
libs = record {
  os = memory;
  store_json = json;
  request_json = record {
    decode_pair = λ n text. parsed (record enrolment { code = text });
    decode_heartbeat = λ n text. parsed beat_request;
    decode_test = λ n text. parsed "w1";
    decode_update = λ n text. parsed update;
  };
  sha256_hex = λ s. s;
}

abbrev pub rig : WorkerState
rig = record {
  id = "w1";
  node_name = "rig";
  os = "linux";
  os_version = "6";
  cpu_model = "x";
  architecture = "amd64";
  physical_cores = pos 4;
  logical_processors = pos 8;
  total_ram = 16;
  available_ram = 8;
  free_workspace_disk = 100;
  last_seen = 5;
  token_hash = "token";
  status = "online";
}

abbrev pub trial : Job
trial = record {
  id = "j1";
  attempt_id = "a1";
  worker_id = "w1";
  task = "test";
  status = "running";
  start_time = some 3;
  end_time = none;
  result = "";
  logs = [];
  profile = "";
  args = [];
  env = [];
  timeout_seconds = pos 0;
  challenge = "secret";
}

abbrev pub store : Store Memory
store = record {
  workers = ("w1", rig) ∷ [];
  jobs = ("j1", trial) ∷ [];
  config = record empty_config { pairing_code = "123456"; pairing_expiry = 50 };
  disk = record { files = []; budget = 9 };
}

update_job_verdict_example :
    ((update_job (λ s. s) update 6 trial).status ≡ "completed")
    ↔ ((◌≡◌ {A = String} "secret" "") ⊎ ("secret" ≡ trial.challenge))
update_job_verdict_example = update_job_verdict (λ s. s) update 6 trial refl refl

abbrev report : Request
report = record {
  method = "POST";
  path = "/api/jobs/j1";
  worker_query = "";
  authorization = "Bearer token";
  body = "{}";
}

handle_job_action_cases_example :
    ((handle_job_action libs report 6 store).0 ≡ store)
    ⊎ Changed libs store (handle_job_action libs report 6 store).0
handle_job_action_cases_example = handle_job_action_cases libs report 6 store

handle_job_action-IsHeir_example :
    (heir : Job) × (lookup "j1" (handle_job_action libs report 6 store).0.jobs ≡ some heir)
    × IsHeir trial heir
unfolding lookup
handle_job_action-IsHeir_example = handle_job_action-IsHeir libs report 6 store "j1" trial refl
