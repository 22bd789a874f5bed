-- ===== src/Worker.antt =====
-- internal/worker/worker.go: the worker's state, its credentials and what it sends.
pub mod Hardware
pub mod Pair
pub mod Poll
pub mod Execute
pub mod Start
pub mod Deployment
use forge_grid.Prelude.{
  ◌≡◌, ℕ, String, Bool, true, false, Option, none, some, List, [], ◌==◌, ◌||◌, ◌&&◌, nat_eq,
  if◌then◌else◌,
}
use Prim.Native.String.{◌++◌}
use forge_grid.Dict.{Dict}
use forge_grid.Disk.{FileSystem}
use forge_grid.Coordinator.Models.{Job, ErrorResponse}
use forge_grid.Coordinator.Requests.{PairRequest, Heartbeat, JobUpdate}

-- The http.Client: none yet, one without TLS, or one that pins a fingerprint.
pub data Transport : Type 0 where
  unset plain : Transport
  pinned : String → Transport

-- A context is a number; the contexts that were cancelled are listed.
pub record Worker : Type 0 where
  pub coordinator_url : String
  pub worker_id : String
  pub token : String
  pub node_name : String
  pub client : Transport
  pub workspace : String
  pub insecure : Bool
  pub fingerprint : String
  pub active_jobs : Dict ℕ
  pub contexts : ℕ
  pub cancelled : List ℕ

pub record WorkerCredentials : Type 0 where
  pub worker_id : String
  pub token : String
  pub coordinator_url : String
  pub fingerprint : String
  pub node_name : String
  pub insecure : Bool

-- A request: its URL is the base and then the target, as they are, unescaped.
pub record Call : Type 0 where
  pub client : Transport
  pub method : String
  pub base : String
  pub target : String
  pub authorization : String
  pub body : String

pub record Answer : Type 0 where
  pub status : ℕ
  pub body : String

-- The network, over a state of what is at the other end: `none` is an error of Do.
abbrev pub Net : Type 0 → Type 0
Net W = Call → W → W × Option Answer

-- encoding/json on what the worker sends, reads and keeps.
pub record WorkerJson : Type 0 where
  pub marshal_pair : PairRequest → Option String
  pub marshal_heartbeat : Heartbeat → Option String
  pub marshal_update : JobUpdate → Option String
  pub marshal_credentials : WorkerCredentials → Option String
  -- The worker's id and its token.
  pub decode_paired : String → Option (String × String)
  pub decode_jobs : String → Option (List Job)
  pub decode_error : String → ErrorResponse
  pub decode_credentials : String → Option WorkerCredentials
  pub credentials_round_trip :
      (c : WorkerCredentials) (text : String)
      → marshal_credentials c ≡ some text
      → decode_credentials text ≡ some c

-- `b, _ := json.Marshal(v)`: at an error there are no bytes.
abbrev pub bytes_of : Option String → String
bytes_of none = ""
bytes_of (some text) = text

-- runtime.GOOS, os.Getenv, os.UserHomeDir (the error is dropped) and filepath.Join.
pub record Surroundings : Type 0 where
  pub goos : String
  pub getenv : String → String
  pub home : String
  pub join : String → String → String

abbrev or_else : String → String → String
or_else s t = if s == "" then t else s

abbrev data_dir : Surroundings → String
data_dir env =
    if env.goos == "windows"
    then or_else (env.getenv "LOCALAPPDATA") (env.getenv "APPDATA")
    else or_else (env.getenv "XDG_DATA_HOME") (env.join (env.join env.home ".local") "share")

unfoldable pub get_worker_creds_path : Surroundings → String
get_worker_creds_path env =
    let name = if env.goos == "linux" then "forgegrid" else "ForgeGrid" in
    env.join (env.join (or_else (data_dir env) ".") name) "worker_creds.json"

-- New
unfoldable pub new_worker : String → String → Bool → Worker
new_worker node_name workspace insecure = record {
  coordinator_url = "";
  worker_id = "";
  token = "";
  node_name = node_name;
  client = unset;
  workspace = workspace;
  insecure = insecure;
  fingerprint = "";
  active_jobs = [];
  contexts = 0;
  cancelled = [];
}

unfoldable pub setup_client : String → Worker → Worker
setup_client fingerprint w = record w { client = if w.insecure then plain else pinned fingerprint }

-- The fields that LoadCreds takes over.
unfoldable pub with_credentials : WorkerCredentials → Worker → Worker
unfolding setup_client
with_credentials creds w = setup_client creds.fingerprint (record w {
  worker_id = creds.worker_id;
  token = creds.token;
  coordinator_url = creds.coordinator_url;
  node_name =
      if w.node_name == "Unnamed-Node" || w.node_name == "" then creds.node_name else w.node_name;
  insecure = creds.insecure;
  fingerprint = creds.fingerprint;
})

module _ {D : Type 0} (os : FileSystem D) (json : WorkerJson) where
  -- `none` is an error: the file cannot be read, or it holds no credentials.
  unfoldable pub load_creds : String → D → Worker → Option Worker
  unfolding with_credentials
  load_creds path d w = elim (os.read_file path d) [
    | none ↦ none
    | some text ↦ elim (json.decode_credentials text) [
      | none ↦ none
      | some creds ↦ some (with_credentials creds w)
    ]
  ]

abbrev pub bearer : Worker → String
bearer w = "Bearer " ++ w.token
