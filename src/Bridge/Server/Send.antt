-- ===== src/Bridge/Server/Send.antt =====
-- POST /api/v1/agent-messages: what is accepted, and what becomes of it.
use mathlib.Core.List.{Memᴰ}
use forge_grid.Bootstrap.Bytes.{byte_len}
use forge_grid.Prelude.{
  ℕ, zero, suc, ◌+◌, ◌*◌, ◌≤◌, ◌<◌, ℤ, pos, negsuc, String, ◌≡◌, ◌≢◌, refl, true, Option, none,
  some, List, [], ◌∷◌, Bool-cases, Option-cases, inl, inr, ◌↔◌, arith, eq_iff, eq_refl, ◌==◌,
}
use forge_grid.Dict.{lookup, lookup-insert}
use forge_grid.Bridge.Models.{
  Time, MessageType, message_types, AgentMessage, MessageRequest, one, malformed, trailing, Decoded,
}
use forge_grid.Bridge.Store.{Store, get_inbox, add_message}
use forge_grid.Bridge.Store.Add.{
  IsIndexed, IsFresh, add_message_new, add_message-IsIndexed, add_message_sender,
}
use forge_grid.Bridge.Store.Inbox.{get_inbox_iff}
use forge_grid.Bridge.Server.{
  Request, Reply, http_error, reply, Payload, message, Libraries, clamp_ttl, seconds, is_listed,
  check_request, new_message, send_message, check_and_send, receive_message, handle_messages,
}

-- A message lives for a second at least and a week at most; a positive request up to a week is kept.
pub clamp_ttl_bounds :
    (t : ℤ)
    → (1 ≤ clamp_ttl t)
      × (clamp_ttl t ≤ 604800)
      × ((n : ℕ) → t ≡ pos n → 1 ≤ n → n ≤ 604800 → clamp_ttl t ≡ n)
unfolding clamp_ttl
clamp_ttl_bounds (negsuc n) = (omega arith, omega arith, λ m e _ _. cc)
clamp_ttl_bounds (pos zero) = (omega arith, omega arith, λ m e p _. ground arith)
clamp_ttl_bounds (pos (suc n)) = (ground arith, ground arith, λ m e _ q. ground arith)

mem_of_is_listed : (t : MessageType) (ts : List MessageType) → is_listed t ts ≡ true → Memᴰ t ts
unfolding is_listed
mem_of_is_listed t [] h = absurd (ground arith)
mem_of_is_listed t (u ∷ us) h = elim (Bool-cases (t == u)) [
  | inl here ↦ Memᴰ.head ((eq_iff t u).0 here)
  | inr later ↦ Memᴰ.tail (mem_of_is_listed t us (ground arith))
]

is_listed_of_mem : (t : MessageType) (ts : List MessageType) → Memᴰ t ts → is_listed t ts ≡ true
unfolding is_listed
is_listed_of_mem t [] m = elim m [ ]
is_listed_of_mem t (u ∷ us) (Memᴰ.head e) = ground (arith, eq_iff t u, e)
is_listed_of_mem t (u ∷ us) (Memᴰ.tail m) = ground (arith, is_listed_of_mem t us m)

-- A request that the relay accepts.
pub record IsAcceptable {D : Type 0} (req : MessageRequest) (s : Store D) : Type 0 where
  pub recipient : (1 ≤ byte_len req.recipient) × (byte_len req.recipient ≤ 100)
  pub task_id : (1 ≤ byte_len req.task_id) × (byte_len req.task_id ≤ 100)
  pub key : byte_len req.idempotency_key ≤ 100
  pub body : (1 ≤ byte_len req.body) × (byte_len req.body ≤ 262144)
  pub registered : lookup req.recipient s.agents ≢ none
  pub type : Memᴰ req.type message_types

module _ {D : Type 0} where
  -- handleMessages sends no error for a request exactly if it is acceptable.
  pub check_request_iff :
      (req : MessageRequest) (s : Store D) → (check_request req s ≡ none) ↔ IsAcceptable req s
  unfolding check_request
  check_request_iff req s = (
    λ h. record {
      recipient = ground (arith, h);
      task_id = ground (arith, h);
      key = ground (arith, h);
      body = ground (arith, h);
      registered = ground (arith, h);
      type = mem_of_is_listed req.type message_types (ground (arith, h));
    },
    λ a. ground (arith, a, is_listed_of_mem req.type message_types a.type),
  )

error_not_reply :
    (e : ℕ × String) (m : AgentMessage)
    → ¬ (◌≡◌ {A = Reply Payload} (http_error e.0 e.1) (reply 201 (message m)))
error_not_reply e m h = cc

module _ {D : Type 0} (libs : Libraries D) (sender : String) (r : Request) (now : Time)
    (s : Store D) where
  handle_messages_accepted :
      (id : String) (req : MessageRequest)
      → r.method ≡ "POST"
      → libs.request_json.decode_message (512 * 1024) r.body ≡ one req
      → IsAcceptable req s
      → handle_messages libs (some id) sender r now s ≡ send_message libs (some id) sender req now s
  unfolding handle_messages receive_message check_and_send
  handle_messages_accepted id req post decoded a =
      rw post (rw (decoded, receive_message) (rw ((check_request_iff req s).1 a, check_and_send)))

  -- An accepted message under an unused id and a new key is in the inbox of its recipient until it
  -- expires, whether or not it could be saved.
  pub handle_messages-inbox :
      (id : String) (req : MessageRequest)
      → IsIndexed s.messages
      → r.method ≡ "POST"
      → libs.request_json.decode_message (512 * 1024) r.body ≡ one req
      → IsAcceptable req s
      → lookup id s.messages ≡ none
      → IsFresh (new_message id sender req now) s.messages
      → (later : Time) → later < now + seconds (clamp_ttl req.ttl)
      → Memᴰ
          (new_message id sender req now)
          (get_inbox req.recipient later (handle_messages libs (some id) sender r now s).0)
  unfolding new_message send_message add_message
  handle_messages-inbox id req w post decoded a unused fresh later alive =
      let msg = new_message id sender req now in
      rw (handle_messages_accepted id req post decoded a) (
        (get_inbox_iff req.recipient later (send_message libs (some id) sender req now s).0 msg
            (add_message-IsIndexed libs.os libs.store_json s msg w)).1
          ((
            rw (add_message_new libs.os libs.store_json s msg w fresh unused)
                (rw lookup-insert (rw eq_refl)),
            record { addressed = refl; alive = alive; unfinished = inl refl },
          )))

  -- What the message of a 201 reply is: the sender's, under the requested key.
  abbrev IsAnswer : AgentMessage → MessageRequest → Type 0
  IsAnswer m req = (m.sender ≡ sender) × (m.idempotency_key ≡ req.idempotency_key)

  send_message_created :
      (id : Option String) (req : MessageRequest) (m : AgentMessage)
      → (send_message libs id sender req now s).1 ≡ reply 201 (message m)
      → IsAnswer m req
  unfolding send_message new_message
  send_message_created none req m h = absurd (ground arith)
  send_message_created (some id) req m h =
      ground
        (arith, h, add_message_sender libs.os libs.store_json s (new_message id sender req now))

  receive_message_created :
      (id : Option String) (d : Decoded MessageRequest) (m : AgentMessage)
      → (receive_message libs id sender d now s).1 ≡ reply 201 (message m)
      → (req : MessageRequest) × (d ≡ one req) × IsAcceptable req s × IsAnswer m req
  unfolding receive_message check_and_send
  receive_message_created id (malformed text) m h = absurd (ground arith)
  receive_message_created id (trailing req) m h = absurd (ground arith)
  receive_message_created id (one req) m h = elim (Option-cases (check_request req s)) [
    | inr (e, bad) ↦ absurd (error_not_reply e m (rw (bad, check_and_send) at h))
    | inl fine ↦ (
      req,
      refl,
      (check_request_iff req s).0 fine,
      send_message_created id req m (rw (fine, check_and_send) at h),
    )
  ]

  -- A 201 reply is given to an acceptable request only, and carries a message of the authenticated
  -- sender under the key of the request.
  pub handle_messages_created :
      (id : Option String) (m : AgentMessage)
      → (handle_messages libs id sender r now s).1 ≡ reply 201 (message m)
      → (req : MessageRequest) × (libs.request_json.decode_message (512 * 1024) r.body ≡ one req)
        × IsAcceptable req s
        × (m.sender ≡ sender)
        × (m.idempotency_key ≡ req.idempotency_key)
  unfolding handle_messages
  handle_messages_created id m h = elim (Bool-cases (r.method == "POST")) [
    | inr wrong ↦ absurd (error_not_reply (405, "Method not allowed") m (rw wrong at h))
    | inl post ↦
        let (req, decoded, a, answer) = receive_message_created id _ m (rw post at h) in
        (req, decoded, a, answer.0, answer.1)
  ]
