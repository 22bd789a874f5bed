-- ===== src/Worker/Deployment.antt =====
-- A worker in front of the coordinator: the requests of internal/worker/worker.go answered by the
-- handlers of internal/coordinator.
pub mod Routes
pub mod Known
pub mod Paired
pub mod Polled
pub mod Restarted
pub mod Reports
pub mod Tested
use Prim.Native.String
use Prim.Native.String.{◌++◌}
use forge_grid.Prelude.{
  code, leb, nat_eq, ◌||◌, ℕ, ◌+◌, ◌≤◌, ◌≡◌, String, Bool, true, false, not, ◌&&◌, Option, none,
  some, List, if◌then◌else◌,
}
use forge_grid.Bootstrap.Bytes.{Bytes, byte_len}
use forge_grid.Bridge.Models.{Time}
use forge_grid.Network.{Pki, PinError, verify_connection}
use forge_grid.Coordinator.Models.{Job, ErrorResponse}
use forge_grid.Coordinator.Store.{Store}
use forge_grid.Coordinator.Requests.{
  Request, Reply, success, failure, Payload, paired, job_list, PairRequest, Heartbeat, JobUpdate,
  Parsed, parsed, Libraries,
}
use forge_grid.Coordinator.Server.{Context, Randomness, serve}
use forge_grid.Worker.{Transport, unset, plain, pinned, Call, Answer, Net, WorkerJson, bytes_of}

-- Letters, digits and dashes, which net/url leaves as they are.
abbrev pub plain_code : ℕ → Bool
plain_code n =
    (leb 48 n && leb n 57) || ((leb 65 n && leb n 90) || ((leb 97 n && leb n 122) || nat_eq n b'-'))

abbrev pub is_plain : String → Bool
is_plain String.[] = true
is_plain (String.◌∷◌ c s) = plain_code (code c) && is_plain s

-- Plain parts and the slashes between them.
abbrev pub is_path : String → Bool
is_path String.[] = true
is_path (String.◌∷◌ c s) = (plain_code (code c) || nat_eq (code c) b'/') && is_path s

-- How the coordinator listens: with TLS it presents its certificates.
pub data Port : Type 0 where
  open_port : Port
  tls_port : List Bytes → Port

-- The coordinator on the network, and net/url on the targets of its requests.
pub record Listener : Type 0 where
  pub port : Port
  -- The base URLs, a scheme with a host, at which it is reached whatever path is put behind.
  pub hosts : String → Bool
  -- The path and the value of worker_id in a target, none where it is not valid.
  pub parse : String → Option (String × String)
  pub parse_plain :
      (dir id : String)
      → is_path dir ≡ true
      → is_plain id ≡ true
      → parse (dir ++ id) ≡ some (dir ++ id, "")
  pub parse_query :
      (id : String)
      → is_plain id ≡ true
      → parse ("/api/jobs?worker_id=" ++ id) ≡ some ("/api/jobs", id)

abbrev passes : Option PinError → Bool
passes none = true
passes (some _) = false

-- Whether a client of the worker gets through. A client without a pin does not trust a certificate
-- that signs itself; the program gives a client with a pin https URLs only.
abbrev accepts : {Key : Type 0} → Pki Key → Port → Transport → Bool
accepts pki open_port (pinned fingerprint) = false
accepts pki open_port plain = true
accepts pki open_port unset = true
accepts pki (tls_port peer) (pinned fingerprint) = passes (verify_connection pki fingerprint peer)
accepts pki (tls_port peer) plain = false
accepts pki (tls_port peer) unset = false

-- Whether a call on a base URL reaches the coordinator.
unfoldable pub reaches : {Key : Type 0} → Pki Key → Listener → String → Transport → Bool
reaches pki listener base client = listener.hosts base && accepts pki listener.port client

-- The coordinator's store, and how many calls it has answered.
pub record Served (D : Type 0) : Type 0 where
  pub store : Store D
  pub calls : ℕ

-- What the handlers encode: encoding/json on the replies.
pub record ReplyJson : Type 0 where
  pub marshal_payload : Payload → Option String
  pub marshal_error : ErrorResponse → Option String

unfoldable pub answer_of : ReplyJson → Reply → Answer
answer_of json (success p) = record { status = 200; body = bytes_of (json.marshal_payload p) }
answer_of json (failure status e) = record {
  status = status;
  body = bytes_of (json.marshal_error e);
}

-- The request that a call makes, with the path and the value of worker_id in its target.
abbrev pub request_of : Call → String → String → Request
request_of c path query = record {
  method = c.method;
  path = path;
  worker_query = query;
  authorization = c.authorization;
  body = c.body;
}

-- The JSON of both sides, as the two agree on it: a body within the limit is read back.
pub record Agree {D : Type 0} (libs : Libraries D) (json : WorkerJson) (replies : ReplyJson)
    : Type 0 where
  pub pair_read :
      (limit : ℕ) (r : PairRequest) (text : String)
      → json.marshal_pair r ≡ some text
      → byte_len text ≤ limit
      → libs.request_json.decode_pair limit text ≡ parsed r
  pub heartbeat_read :
      (limit : ℕ) (h : Heartbeat) (text : String)
      → json.marshal_heartbeat h ≡ some text
      → byte_len text ≤ limit
      → libs.request_json.decode_heartbeat limit text ≡ parsed h
  pub update_read :
      (limit : ℕ) (u : JobUpdate) (text : String)
      → json.marshal_update u ≡ some text
      → byte_len text ≤ limit
      → libs.request_json.decode_update limit text ≡ parsed u
  pub paired_read :
      (id token text : String)
      → replies.marshal_payload (paired id token) ≡ some text
      → json.decode_paired text ≡ some (id, token)
  pub jobs_read :
      (jobs : List Job) (text : String)
      → replies.marshal_payload (job_list jobs) ≡ some text
      → json.decode_jobs text ≡ some jobs
  -- No bytes are the end of the file.
  pub nothing_read : json.decode_paired "" ≡ none

module _ {D Key : Type 0} (libs : Libraries D) (context : Context) (replies : ReplyJson)
    (pki : Pki Key) (listener : Listener) where
  -- The coordinator as the network of a worker: each call has what it draws and its time. A target
  -- that is not valid counts as an error of Do, where the program stops at the request that is nil.
  unfoldable pub coordinator_net : (ℕ → Randomness) → (ℕ → Time) → Net (Served D)
  unfolding reaches answer_of
  coordinator_net random clock c s = elim (listener.parse c.target) [
    | none ↦ (s, none)
    | some (path, query) ↦
        let (store', reply) =
          serve libs context (random s.calls) (request_of c path query) (clock s.calls) s.store in
        if reaches pki listener c.base c.client
        then (record { store = store'; calls = s.calls + 1 }, some (answer_of replies reply))
        else (s, none)
  ]
