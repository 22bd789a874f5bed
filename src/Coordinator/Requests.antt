-- ===== src/Coordinator/Requests.antt =====
-- The requests and replies of internal/coordinator/handlers.go.
use Prim.Native.String.{◌++◌}
use forge_grid.Prelude.{ℕ, ℤ, String, List, trim_prefix}
use forge_grid.Disk.{FileSystem}
use forge_grid.Coordinator.Models.{WorkerDto, Job, ErrorResponse}
use forge_grid.Coordinator.Store.{StoreJson}

pub record Request : Type 0 where
  pub method : String
  pub path : String
  pub worker_query : String
  pub authorization : String
  pub body : String

-- What a handler sends with status 200.
pub data Payload : Type 0 where
  empty : Payload
  started : Payload
  coordinator_status : String → String → String → Payload
  pairing_code : String → Payload
  paired : String → String → Payload
  worker_list : List WorkerDto → Payload
  one_job : Job → Payload
  job_list : List Job → Payload
  dispatched : String → Payload

pub data Reply : Type 0 where
  failure : ℕ → ErrorResponse → Reply
  success : Payload → Reply

unfoldable pub write_error : ℕ → String → String → String → Reply
write_error status code' message detail =
    failure status (record { code = code'; message = message; detail = detail })

pub record PairRequest : Type 0 where
  pub code : String
  pub node_name : String
  pub os : String
  pub os_version : String
  pub cpu_model : String
  pub architecture : String
  pub physical_cores : ℤ
  pub logical_processors : ℤ
  pub total_ram : ℕ
  pub available_ram : ℕ
  pub free_workspace_disk : ℕ

pub record Heartbeat : Type 0 where
  pub worker_id : String
  pub available_ram : ℕ
  pub free_workspace_disk : ℕ

pub record JobUpdate : Type 0 where
  pub attempt_id : String
  pub status : String
  pub result : String
  pub logs : List String

-- Decode: the text of its error, or the value. What stands behind the value is not read.
pub data Parsed (A : Type 0) : Type 0 where
  unparsed : String → Parsed A
  parsed : A → Parsed A

-- The Decoder of encoding/json on a body cut off at a number of bytes.
pub record RequestJson : Type 0 where
  pub decode_pair : ℕ → String → Parsed PairRequest
  pub decode_heartbeat : ℕ → String → Parsed Heartbeat
  pub decode_test : ℕ → String → Parsed String
  pub decode_update : ℕ → String → Parsed JobUpdate

-- What the handlers call outside the repository.
pub record Libraries (D : Type 0) : Type 0 where
  pub os : FileSystem D
  pub store_json : StoreJson
  pub request_json : RequestJson
  pub sha256_hex : String → String

-- The token of the Authorization header.
abbrev pub token_of : Request → String
token_of r = trim_prefix "Bearer " r.authorization

abbrev pub job_id : String → String
job_id random_id = "job-" ++ random_id
