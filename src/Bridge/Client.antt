-- ===== src/Bridge/Client.antt =====
-- internal/agentbridge/client.go: the relay's client.
pub mod Secure
pub mod Commands
pub mod Relay
pub mod Delivery
use Prim.Native.String.{◌++◌}
use forge_grid.Prelude.{
  ℕ, ◌*◌, ℤ, String, Bool, true, false, Option, none, some, List, ltb, leb, ◌&&◌, ◌==◌, not,
  if◌then◌else◌,
}
use forge_grid.Bridge.Models.{AgentMessage, MessageRequest}

-- The TLS configuration of the transport.
pub data Trust : Type 0 where
  trust_all : Trust
  trust_pin : String → Trust

pub record Client : Type 0 where
  pub base_url : String
  pub agent_name : String
  pub token : String
  pub trust : Trust

-- What Do is given: the URL is the base and the path behind it.
pub record Call : Type 0 where
  pub trust : Trust
  pub base : String
  pub path : String
  pub method : String
  pub authorization : String
  pub body : String

pub record Answer : Type 0 where
  pub status : ℕ
  pub body : String

-- The network, over a state of what is at the other end: `none` is an error of NewRequest or Do.
abbrev pub Net : Type 0 → Type 0
Net W = Call → W → W × Option Answer

pub data Outcome (A : Type 0) : Type 0 where
  ok : A → Outcome A
  unmarshalled : Outcome A
  unreached : Outcome A
  http_failure : ℕ → String → Outcome A
  undecoded : Outcome A

-- encoding/json on what the client sends and reads. A result that is no JSON is not marshalled.
pub record ClientJson : Type 0 where
  pub marshal_message : MessageRequest → Option String
  pub marshal_result : String → Option String
  pub decode_message : String → Option AgentMessage
  pub decode_inbox : String → Option (List AgentMessage)

-- NewClient: `none` is its error.
unfoldable pub new_client : String → String → String → String → Bool → Option Client
new_client base_url agent_name token fingerprint insecure =
    let trusting : Client = record {
      base_url = base_url;
      agent_name = agent_name;
      token = token;
      trust = trust_all;
    } in
    if insecure
    then some trusting
    else if not (fingerprint == "")
    then some (record trusting { trust = trust_pin fingerprint })
    else none

unfoldable pub bearer_of : Client → String
bearer_of c = "Bearer " ++ (c.agent_name ++ (":" ++ c.token))

module _ {W : Type 0} (net : Net W) where
  unfoldable pub call_of : Client → String → String → String → Call
  unfolding bearer_of
  call_of c method path body = record {
    trust = c.trust;
    base = c.base_url;
    path = path;
    method = method;
    authorization = bearer_of c;
    body = body;
  }

  -- The part of doReq behind Do.
  unfoldable pub read_answer : {A : Type 0} → (String → Option A) → Option Answer → Outcome A
  read_answer decode none = unreached
  read_answer decode (some a) =
      if leb 200 a.status && ltb a.status 300
      then elim (decode a.body) [ none ↦ undecoded | some out ↦ ok out ]
      else http_failure a.status a.body

  -- The body is what Marshal made of it.
  unfoldable pub do_req :
      {A : Type 0}
      → (String → Option A)
      → Client
      → String
      → String
      → Option String
      → W
      → W × Outcome A
  unfolding call_of read_answer
  do_req decode c method path none s = (s, unmarshalled)
  do_req decode c method path (some body) s =
      let (s', answer) = net (call_of c method path body) s in (s', read_answer decode answer)

  module _ (json : ClientJson) where
    unfoldable pub send_message : MessageRequest → Client → W → W × Outcome AgentMessage
    unfolding do_req
    send_message req c s =
        do_req json.decode_message c "POST" "/api/v1/agent-messages" (json.marshal_message req) s

    -- A request without a body is sent with an empty one.
    unfoldable pub get_inbox : Client → W → W × Outcome (List AgentMessage)
    unfolding do_req
    get_inbox c s = do_req json.decode_inbox c "GET" "/api/v1/agent-messages/inbox" (some "") s

    unfoldable pub acknowledge : String → Client → W → W × Outcome AgentMessage
    unfolding do_req
    acknowledge id c s =
        do_req json.decode_message c "POST" ("/api/v1/agent-messages/" ++ (id ++ "/acknowledge"))
          (some "") s

    unfoldable pub complete : String → String → Client → W → W × Outcome AgentMessage
    unfolding do_req
    complete id result c s =
        do_req json.decode_message c "POST" ("/api/v1/agent-messages/" ++ (id ++ "/complete"))
          (json.marshal_result result) s

    unfoldable pub fail : String → String → Client → W → W × Outcome AgentMessage
    unfolding do_req
    fail id result c s =
        do_req json.decode_message c "POST" ("/api/v1/agent-messages/" ++ (id ++ "/fail"))
          (json.marshal_result result) s
