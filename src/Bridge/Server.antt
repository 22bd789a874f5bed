-- ===== src/Bridge/Server.antt =====
-- internal/agentbridge/server.go: the routes and the handlers. The clock stands still during one
-- request, and requests are handled one after another.
pub mod Rule
pub mod Send
pub mod Access
use Prim.Native.String.{◌++◌}
use forge_grid.Bootstrap.Bytes.{byte_len}
use forge_grid.Prelude.{
  ℕ, zero, suc, ◌+◌, ◌*◌, ◌^◌, ℤ, pos, negsuc, String, Bool, true, false, Option, none, some, List,
  [], ◌∷◌, ◌==◌, ◌||◌, not, ltb, nat_eq, if◌then◌else◌, cut_prefix, trim_prefix, cut_at,
}
use forge_grid.Disk.{FileSystem}
use forge_grid.Bridge.Models.{
  Time, MessageType, message_types, status_pending, AgentMessage, MessageRequest, Decoded,
  malformed, one, trailing, StoreJson, RequestJson,
}
use forge_grid.Bridge.Store.{
  Store, StoreError, not_found, forbidden, invalid_action, io_error, corrupt_agents,
  corrupt_messages, Result, ok, err, get_agent, get_inbox, add_message, transition_message,
}
use forge_grid.Bridge.Auth.{Limiter, authenticate}

pub record Server (D : Type 0) : Type 0 where
  pub store : Store D
  pub limits : Limiter

pub record Request : Type 0 where
  pub remote : String
  pub authorization : String
  pub method : String
  pub path : String
  pub body : String

-- http.Error, or a body that is encoded under a status.
pub data Reply (A : Type 0) : Type 0 where
  http_error : ℕ → String → Reply A
  reply : ℕ → A → Reply A

-- What a reply may carry.
pub data Payload : Type 0 where
  message : AgentMessage → Payload
  inbox : List AgentMessage → Payload
  status_ok : Payload

abbrev pub seconds : ℕ → Time
seconds n = n * 10 ^ 9

-- The `switch req.Type`.
unfoldable pub is_listed : MessageType → List MessageType → Bool
is_listed t [] = false
is_listed t (u ∷ us) = t == u || is_listed t us

-- The lifetime of a message in seconds: an hour by default, a week at most.
unfoldable pub clamp_ttl : ℤ → ℕ
clamp_ttl (negsuc n) = 3600
clamp_ttl (pos zero) = 3600
clamp_ttl (pos (suc n)) = if ltb (86400 * 7) (suc n) then 86400 * 7 else suc n

-- The tests of handleMessages on the decoded request: the error that is sent, if any.
unfoldable pub check_request : {D : Type 0} → MessageRequest → Store D → Option (ℕ × String)
unfolding is_listed get_agent
check_request req s =
    if nat_eq (byte_len req.recipient) 0 || ltb 100 (byte_len req.recipient)
    then some (400, "Bad request: recipient length invalid")
    else if nat_eq (byte_len req.task_id) 0 || ltb 100 (byte_len req.task_id)
    then some (400, "Bad request: task ID length invalid")
    else if ltb 100 (byte_len req.idempotency_key)
    then some (400, "Bad request: idempotency key too long")
    else if nat_eq (byte_len req.body) 0 || ltb (256 * 1024) (byte_len req.body)
    then some (400, "Bad request: body too large or empty")
    else elim (get_agent req.recipient s) [
      | none ↦ some (404, "Recipient not found")
      | some _ ↦
          if is_listed req.type message_types then none else some (400, "Invalid message type")
    ]

unfoldable pub new_message : String → String → MessageRequest → Time → AgentMessage
unfolding clamp_ttl
new_message id sender req now = record {
  id = id;
  sender = sender;
  recipient = req.recipient;
  task_id = req.task_id;
  type = req.type;
  body = req.body;
  idempotency_key = req.idempotency_key;
  created_at = now;
  expires_at = now + seconds (clamp_ttl req.ttl);
  status = status_pending;
  acknowledged_at = none;
  completed_at = none;
  result = "";
}

-- The status for an error of the store.
unfoldable pub error_reply : StoreError → Reply Payload
error_reply not_found = http_error 404 "Not found"
error_reply forbidden = http_error 403 "Forbidden"
error_reply invalid_action = http_error 404 "Not found"
error_reply _ = http_error 500 "Internal error"

unfoldable pub action_reply : Result AgentMessage → Reply Payload
unfolding error_reply
action_reply (ok msg) = reply 200 (message msg)
action_reply (err e) = error_reply e

abbrev pub messages_path : String
messages_path = "/api/v1/agent-messages"

abbrev pub inbox_path : String
inbox_path = "/api/v1/agent-messages/inbox"

abbrev pub action_prefix : String
action_prefix = "/api/v1/agent-messages/"

abbrev pub status_path : String
status_path = "/api/v1/agent-status"

pub data Route : Type 0 where
  to_messages to_inbox to_action to_status to_none : Route

-- RegisterRoutes: ServeMux takes the longest pattern, and one with a final slash is a prefix.
unfoldable pub route_of : String → Route
route_of path =
    if path == messages_path
    then to_messages
    else if path == inbox_path
    then to_inbox
    else if path == status_path
    then to_status
    else elim (cut_prefix action_prefix path) [ none ↦ to_none | some _ ↦ to_action ]

-- What the handlers call outside the repository: package os, encoding/json and sha256.
pub record Libraries (D : Type 0) : Type 0 where
  pub os : FileSystem D
  pub store_json : StoreJson
  pub request_json : RequestJson
  pub sha256_hex : String → String

module _ {D : Type 0} (libs : Libraries D) where
  open libs use {os, store_json, request_json, sha256_hex}

  abbrev Handler : Type 0
  Handler = Store D → Store D × Reply Payload

  -- The part of handleMessages behind the checks; `id` is what GenerateID returned.
  unfoldable pub send_message : Option String → String → MessageRequest → Time → Handler
  unfolding new_message
  send_message none sender req now s = (s, http_error 500 "Internal error")
  send_message (some id) sender req now s =
      let (s', msg, saved) = add_message os store_json (new_message id sender req now) s in
      (s', if saved then reply 201 (message msg) else http_error 500 "Internal error")

  unfoldable pub check_and_send : Option String → String → MessageRequest → Time → Handler
  check_and_send id sender req now s = elim (check_request req s) [
    | some (status, text) ↦ (s, http_error status text)
    | none ↦ send_message id sender req now s
  ]

  unfoldable pub receive_message : Option String → String → Decoded MessageRequest → Time → Handler
  receive_message id sender (malformed text) now s = (s, http_error 400 ("Bad request: " ++ text))
  receive_message id sender (trailing _) now s = (s, http_error 400 "Bad request: multiple objects")
  receive_message id sender (one req) now s = check_and_send id sender req now s

  unfoldable pub handle_messages : Option String → String → Request → Time → Handler
  handle_messages id sender r now s =
      if not (r.method == "POST")
      then (s, http_error 405 "Method not allowed")
      else receive_message id sender (request_json.decode_message (512 * 1024) r.body) now s

  unfoldable pub handle_inbox : String → Request → Time → Handler
  handle_inbox recipient r now s =
      if not (r.method == "GET")
      then (s, http_error 405 "Method not allowed")
      else (s, reply 200 (inbox (get_inbox recipient now s)))

  unfoldable pub apply_transition : String → String → String → String → Time → Handler
  unfolding action_reply
  apply_transition agent id action result now s =
      let (s', r) = transition_message os store_json id agent action result now s in
      (s', action_reply r)

  unfoldable pub receive_result : String → String → String → Decoded String → Time → Handler
  receive_result agent id action (malformed text) now s =
      (s, http_error 400 ("Bad request: " ++ text))
  receive_result agent id action (trailing _) now s =
      (s, http_error 400 "Bad request: multiple objects")
  receive_result agent id action (one result) now s = apply_transition agent id action result now s

  unfoldable pub handle_message_action : String → Request → Time → Handler
  handle_message_action agent r now s =
      if not (r.method == "POST")
      then (s, http_error 405 "Method not allowed")
      else elim (cut_at b'/' (trim_prefix action_prefix r.path)) [
        | none ↦ (s, http_error 404 "Not found")
        | some (id, action) ↦
            if action == "complete" || action == "fail"
            then receive_result agent id action (request_json.decode_result (512 * 1024) r.body) now
                s
            else apply_transition agent id action "" now s
      ]

  unfoldable pub handle_status : Handler
  handle_status s = (s, reply 200 status_ok)

  -- The handler of a route, for an agent that is authenticated.
  unfoldable pub handle : Route → Option String → String → Request → Time → Handler
  handle to_messages id agent r now s = handle_messages id agent r now s
  handle to_inbox id agent r now s = handle_inbox agent r now s
  handle to_action id agent r now s = handle_message_action agent r now s
  handle to_status id agent r now s = handle_status s
  handle to_none id agent r now s = (s, http_error 404 "404 page not found")

  unfoldable pub answer_as :
      Route
      → Option String
      → Request
      → Time
      → Server D
      → Limiter × Option String
      → Server D × Reply Payload
  answer_as route id r now srv (limits, none) =
      (record srv { limits = limits }, http_error 401 "Unauthorized")
  answer_as route id r now srv (limits, some name) =
      let (s', answer) = handle route id name r now srv.store in
      (record { store = s'; limits = limits }, answer)

  -- Each handler authenticates first.
  unfoldable pub enter :
      Route → Option String → Request → Time → Server D → Server D × Reply Payload
  unfolding answer_as
  enter to_none id r now srv = (srv, http_error 404 "404 page not found")
  enter route id r now srv =
      answer_as route id r now srv
        (authenticate sha256_hex r.remote r.authorization now srv.store srv.limits)

  unfoldable pub serve : Option String → Request → Time → Server D → Server D × Reply Payload
  unfolding enter route_of
  serve id r now srv = enter (route_of r.path) id r now srv
