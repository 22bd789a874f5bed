-- ===== src/Bridge/Server/Rule.antt =====
-- What a handler can do to the store: nothing, one AddMessage, or one TransitionMessage in the name
-- of the agent. One rule carries a property through all the routes.
use forge_grid.Prelude.{
  String, Option, none, some, Bool-cases, Option-cases, inl, inr, ◌==◌, ◌||◌, cut_at, trim_prefix,
}
use forge_grid.Bridge.Models.{Time, AgentMessage, Decoded, malformed, one, trailing, MessageRequest}
use forge_grid.Bridge.Store.{Store, add_message, transition_message}
use forge_grid.Bridge.Server.{
  Request, Libraries, Route, to_messages, to_inbox, to_action, to_status, to_none, check_request,
  send_message, check_and_send, receive_message, handle_messages, handle_inbox, apply_transition,
  receive_result, handle_message_action, handle_status, handle, action_prefix,
}

module _ {D : Type 0} (libs : Libraries D) (agent : String) (now : Time) (s : Store D)
    (P : Store D → Type 0) (kept : P s)
    (added : (msg : AgentMessage) → P (add_message libs.os libs.store_json msg s).0)
    (moved : (id action result : String)
      → P (transition_message libs.os libs.store_json id agent action result now s).0) where
  send_message_rule :
      (id : Option String) (req : MessageRequest) → P (send_message libs id agent req now s).0
  unfolding send_message
  send_message_rule none req = kept
  send_message_rule (some id) req = added _

  check_and_send_rule :
      (id : Option String) (req : MessageRequest) → P (check_and_send libs id agent req now s).0
  unfolding check_and_send
  check_and_send_rule id req = elim (Option-cases (check_request req s)) [
    | inl fine ↦ rw (fine, check_and_send) (send_message_rule id req)
    | inr (e, bad) ↦ rw (bad, check_and_send) kept
  ]

  receive_message_rule :
      (id : Option String) (d : Decoded MessageRequest)
      → P (receive_message libs id agent d now s).0
  unfolding receive_message
  receive_message_rule id (malformed text) = kept
  receive_message_rule id (trailing _) = kept
  receive_message_rule id (one req) = check_and_send_rule id req

  apply_transition_rule :
      (id action result : String) → P (apply_transition libs agent id action result now s).0
  unfolding apply_transition
  apply_transition_rule id action result = moved id action result

  receive_result_rule :
      (id action : String) (d : Decoded String) → P (receive_result libs agent id action d now s).0
  unfolding receive_result
  receive_result_rule id action (malformed text) = kept
  receive_result_rule id action (trailing _) = kept
  receive_result_rule id action (one result) = apply_transition_rule id action result

  handle_message_action_rule : (r : Request) → P (handle_message_action libs agent r now s).0
  unfolding handle_message_action
  handle_message_action_rule r = elim (Bool-cases (r.method == "POST")) [
    | inr wrong ↦ rw wrong kept
    | inl post ↦ elim (Option-cases (cut_at b'/' (trim_prefix action_prefix r.path))) [
      | inl missed ↦ rw post (rw (missed, handle_message_action) kept)
      | inr ((id, action), found) ↦ elim (Bool-cases (action == "complete" || action == "fail")) [
        | inl with_result ↦ rw post (rw found (rw with_result (receive_result_rule id action _)))
        | inr plain ↦ rw post (rw found (rw plain (apply_transition_rule id action "")))
      ]
    ]
  ]

  pub handle_rule :
      (route : Route) (id : Option String) (r : Request) → P (handle libs route id agent r now s).0
  unfolding handle handle_messages handle_inbox handle_status
  handle_rule to_messages id r = elim (Bool-cases (r.method == "POST")) [
    | inr wrong ↦ rw wrong kept
    | inl post ↦ rw post (receive_message_rule id _)
  ]
  handle_rule to_inbox id r = elim (Bool-cases (r.method == "GET")) [
    | inr wrong ↦ rw wrong kept
    | inl get ↦ rw get kept
  ]
  handle_rule to_action id r = handle_message_action_rule r
  handle_rule to_status id r = kept
  handle_rule to_none id r = kept
