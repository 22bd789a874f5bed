-- ===== src/Bridge/Client/Relay.antt =====
-- The relay as a client meets it: its calls answered by the handlers of
-- internal/agentbridge/server.go.
use Prim.Native.String.{◌++◌}
use forge_grid.Prelude.{
  ℕ, ◌+◌, ◌≤◌, ◌≡◌, String, Bool, Option, none, some, List, get_or, if◌then◌else◌,
}
use forge_grid.Bootstrap.Bytes.{byte_len}
use forge_grid.Bridge.Models.{Time, AgentMessage, MessageRequest, one}
use forge_grid.Bridge.Server.{
  Server, Request, Reply, http_error, reply, Payload, message, inbox, Libraries, serve,
}
use forge_grid.Bridge.Client.{Call, Answer, Net, ClientJson}

-- The relay, and how many requests it has answered.
pub record Served (D : Type 0) : Type 0 where
  pub server : Server D
  pub calls : ℕ

-- http.Error ends its text with a line feed; the other replies are encoded.
unfoldable pub answer_of : (Payload → Option String) → Reply Payload → Answer
answer_of marshal (http_error status text) = record { status = status; body = text ++ "\n" }
answer_of marshal (reply status payload) = record {
  status = status;
  body = get_or (marshal payload) "";
}

abbrev pub request_of : String → Call → Request
request_of remote c = record {
  remote = remote;
  authorization = c.authorization;
  method = c.method;
  path = c.path;
  body = c.body;
}

-- What a request meets: the address it comes from, the id that is drawn, and the clock.
pub record Occasion : Type 0 where
  pub remote : String
  pub fresh_id : Option String
  pub now : Time

-- The JSON of both sides, as they agree on it: a body within the limit is read back.
pub record Agree {D : Type 0} (libs : Libraries D) (json : ClientJson)
    (marshal : Payload → Option String) : Type 0 where
  pub message_read :
      (limit : ℕ) (req : MessageRequest) (text : String)
      → json.marshal_message req ≡ some text
      → byte_len text ≤ limit
      → libs.request_json.decode_message limit text ≡ one req
  pub reply_read :
      (m : AgentMessage) (text : String)
      → marshal (message m) ≡ some text
      → json.decode_message text ≡ some m
  pub inbox_read :
      (ms : List AgentMessage) (text : String)
      → marshal (inbox ms) ≡ some text
      → json.decode_inbox text ≡ some ms

module _ {D : Type 0} (libs : Libraries D) (marshal : Payload → Option String)
    (reaches : Call → Bool) (occasion : ℕ → Occasion) where
  -- A call that does not reach the relay, for its URL or for the relay's certificate, is an error.
  unfoldable pub relay_net : Net (Served D)
  unfolding answer_of
  relay_net c s =
      let o = occasion s.calls in
      let (server', answer) = serve libs o.fresh_id (request_of o.remote c) o.now s.server in
      if reaches c
      then (record { server = server'; calls = s.calls + 1 }, some (answer_of marshal answer))
      else (s, none)
