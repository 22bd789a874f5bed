-- ===== src/Bridge/Models.antt =====
-- internal/agentbridge/models.go, and the JSON of its types. A time is the count of nanoseconds
-- since Go's zero time.
use forge_grid.Prelude.{none, some, ℕ, ℤ, String, Option, List, [], ◌∷◌, ◌≡◌, some}
use forge_grid.Dict.{Dict, lookup}

abbrev pub Time : Type 0
Time = ℕ

-- MessageType and MessageStatus are strings in Go, and JSON may hold any.
abbrev pub MessageType : Type 0
MessageType = String

abbrev pub message_types : List MessageType
message_types =
    "instruction" ∷ "acknowledgement" ∷ "progress" ∷ "result" ∷ "error" ∷ "question" ∷ "answer"
    ∷ "shutdown_notice" ∷ []

abbrev pub MessageStatus : Type 0
MessageStatus = String

abbrev pub status_pending : MessageStatus
status_pending = "pending"

abbrev pub status_acknowledged : MessageStatus
status_acknowledged = "acknowledged"

abbrev pub status_completed : MessageStatus
status_completed = "completed"

abbrev pub status_failed : MessageStatus
status_failed = "failed"

abbrev pub status_expired : MessageStatus
status_expired = "expired"

pub record AgentMessage : Type 0 where
  pub id : String
  pub sender : String
  pub recipient : String
  pub task_id : String
  pub type : MessageType
  pub body : String
  pub idempotency_key : String
  pub created_at : Time
  pub expires_at : Time
  pub status : MessageStatus
  pub acknowledged_at : Option Time
  pub completed_at : Option Time
  pub result : String

pub record AgentRegistration : Type 0 where
  pub name : String
  pub token_hash : String
  pub created_at : Time

-- What Decode makes of a request body: an error, one value, or one value with more text behind it.
pub data Decoded (A : Type 0) : Type 0 where
  malformed : String → Decoded A
  one : A → Decoded A
  trailing : A → Decoded A

-- The body of POST /api/v1/agent-messages.
pub record MessageRequest : Type 0 where
  pub recipient : String
  pub task_id : String
  pub type : MessageType
  pub body : String
  pub ttl : ℤ
  pub idempotency_key : String

-- A message with its result as `indent` leaves it.
abbrev pub reindented : (String → String) → Option AgentMessage → Option AgentMessage
reindented indent none = none
reindented indent (some m) = some (record m { result = indent m.result })

-- encoding/json on the maps of the store: what is marshalled is read back, the raw results as they
-- are indented and the entries in whatever order.
pub record StoreJson : Type 0 where
  -- What MarshalIndent makes of a raw message.
  pub indent : String → String
  pub marshal_agents : Dict AgentRegistration → Option String
  pub marshal_messages : Dict AgentMessage → Option String
  pub unmarshal_agents : String → Option (Dict AgentRegistration)
  pub unmarshal_messages : String → Option (Dict AgentMessage)
  pub agents_round_trip :
      (m : Dict AgentRegistration) (text : String)
      → marshal_agents m ≡ some text
      → (m' : Dict AgentRegistration) × (unmarshal_agents text ≡ some m')
        × ((k : String) → lookup k m' ≡ lookup k m)
  pub messages_round_trip :
      (m : Dict AgentMessage) (text : String)
      → marshal_messages m ≡ some text
      → (m' : Dict AgentMessage) × (unmarshal_messages text ≡ some m')
        × ((k : String) → lookup k m' ≡ reindented indent (lookup k m))

-- The Decoder of encoding/json on a request body of at most the given number of bytes
-- (http.MaxBytesReader), with DisallowUnknownFields.
pub record RequestJson : Type 0 where
  pub decode_message : ℕ → String → Decoded MessageRequest
  pub decode_result : ℕ → String → Decoded String
