-- ===== src/Worker/Pair.antt =====
-- `Pair` and `sendHeartbeat` of internal/worker/worker.go.
pub mod Stored
use Prim.Native.String.{◌++◌}
use forge_grid.Prelude.{
  ℕ, String, Bool, true, false, not, ◌&&◌, Option, none, some, get_or, nat_eq, if◌then◌else◌,
  cut_at, cut_prefix, ◌==◌,
}
use forge_grid.Disk.{FileSystem}
use forge_grid.Disk.Atomic.{atomic_write}
use forge_grid.Coordinator.Models.{WorkerDto, ErrorResponse}
use forge_grid.Coordinator.Requests.{PairRequest, Heartbeat}
use forge_grid.Worker.Hardware.{Machine, get_hardware_info, available_of}
use forge_grid.Worker.{
  Worker, WorkerCredentials, Call, Answer, Net, WorkerJson, setup_client, bearer, bytes_of,
}

pub data PairResult : Type 0 where
  is_paired : PairResult
  unreachable : PairResult
  -- The code and the message of the coordinator's error.
  pairing_failed : String → String → PairResult
  bad_answer : PairResult

abbrev has_colon : String → Bool
has_colon s = elim (cut_at b':' s) [ none ↦ false | some _ ↦ true ]

abbrev has_http : String → Bool
has_http s = elim (cut_prefix "http" s) [ none ↦ false | some _ ↦ true ]

unfoldable pub coordinator_url_of : Bool → String → String
coordinator_url_of insecure ip =
    (if insecure then "http" else "https")
    ++ ("://" ++ (if not (has_colon ip) && not (has_http ip) then ip ++ ":8080" else ip))

unfoldable pub pair_request : String → WorkerDto → PairRequest
pair_request code' hw = record {
  code = code';
  node_name = hw.node_name;
  os = hw.os;
  os_version = hw.os_version;
  cpu_model = hw.cpu_model;
  architecture = hw.architecture;
  physical_cores = hw.physical_cores;
  logical_processors = hw.logical_processors;
  total_ram = hw.total_ram;
  available_ram = hw.available_ram;
  free_workspace_disk = hw.free_workspace_disk;
}

unfoldable pub credentials_of : Worker → WorkerCredentials
credentials_of w = record {
  worker_id = w.worker_id;
  token = w.token;
  coordinator_url = w.coordinator_url;
  fingerprint = w.fingerprint;
  node_name = w.node_name;
  insecure = w.insecure;
}

-- The worker before it calls the coordinator.
unfoldable pub aimed : String → String → Worker → Worker
unfolding setup_client coordinator_url_of
aimed ip fingerprint w =
    let w1 = setup_client fingerprint (record w { fingerprint = fingerprint }) in
    record w1 { coordinator_url = coordinator_url_of w1.insecure ip }

module _ {W D : Type 0} (net : Net W) (os : FileSystem D) (json : WorkerJson) where
  unfoldable pub pair_call : String → Machine → Worker → Call
  unfolding pair_request get_hardware_info
  pair_call code machine w = record {
    client = w.client;
    method = "POST";
    base = w.coordinator_url;
    target = "/api/workers/pair";
    authorization = "";
    body = bytes_of (json.marshal_pair (pair_request code (get_hardware_info machine w.node_name)));
  }

  -- The errors of the write are dropped.
  unfoldable pub keep_credentials : String → Worker → D → D
  unfolding credentials_of
  keep_credentials path w d =
      (atomic_write os path (bytes_of (json.marshal_credentials (credentials_of w))) d).0

  -- What becomes of the worker and its disk at the answer.
  unfoldable pub take_answer : String → Worker → D → Option Answer → Worker × D × PairResult
  unfolding keep_credentials
  take_answer path w d none = (w, d, unreachable)
  take_answer path w d (some a) =
      let e = json.decode_error a.body in
      if not (nat_eq a.status 200)
      then (w, d, pairing_failed e.code e.message)
      else elim (json.decode_paired a.body) [
        | none ↦ (w, d, bad_answer)
        | some (id, token) ↦
            let w' = record w { worker_id = id; token = token } in
            (w', keep_credentials path w' d, is_paired)
      ]

  unfoldable pub pair :
      String → String → String → String → Machine → Worker → W → D → W × Worker × D × PairResult
  unfolding aimed pair_call take_answer
  pair path ip code fingerprint machine w s d =
      let w1 = aimed ip fingerprint w in
      let (s', answer) = net (pair_call code machine w1) s in
      let (w', d', result) = take_answer path w1 d answer in (s', w', d', result)

-- What sendHeartbeat makes of the answer: it exits the program at a rejection.
pub data Beat : Type 0 where
  sent lost rejected : Beat

abbrev pub heartbeat_of : Machine → Worker → Heartbeat
heartbeat_of machine w = record {
  worker_id = w.worker_id;
  available_ram = available_of machine.memory;
  free_workspace_disk = get_or machine.disk_free 0;
}

module _ {W : Type 0} (net : Net W) (json : WorkerJson) where
  unfoldable pub heartbeat_call : Machine → Worker → Call
  heartbeat_call machine w = record {
    client = w.client;
    method = "POST";
    base = w.coordinator_url;
    target = "/api/workers/heartbeat";
    authorization = bearer w;
    body = bytes_of (json.marshal_heartbeat (heartbeat_of machine w));
  }

  unfoldable pub beat_of : Option Answer → Beat
  beat_of none = lost
  beat_of (some a) = if nat_eq a.status 401 then rejected else sent

  unfoldable pub send_heartbeat : Machine → Worker → W → W × Beat
  unfolding heartbeat_call beat_of
  send_heartbeat machine w s =
      let (s', answer) = net (heartbeat_call machine w) s in (s', beat_of answer)
