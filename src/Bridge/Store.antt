-- ===== src/Bridge/Store.antt =====
-- internal/agentbridge/store.go. A method that holds the store's mutex is one step; it returns the
-- new store and its results. `time.Now()` is an argument.
pub mod Persist
pub mod Add
pub mod Transition
pub mod Inbox
use Prim.Native.String.{◌++◌}
use forge_grid.Prelude.{
  String, Bool, true, false, Option, none, some, List, [], ◌∷◌, ◌==◌, not, ◌&&◌, ◌||◌, ltb,
  if◌then◌else◌,
}
use forge_grid.Dict.{Dict, lookup, insert, values}
use forge_grid.Disk.{FileSystem}
use forge_grid.Disk.Atomic.{atomic_write}
use forge_grid.Bridge.Models.{
  Time, AgentMessage, AgentRegistration, StoreJson, status_pending, status_acknowledged,
  status_completed, status_failed,
}

pub record Store (D : Type 0) : Type 0 where
  pub agents : Dict AgentRegistration
  pub messages : Dict AgentMessage
  pub disk : D

-- The texts "not found", "forbidden" and "invalid action", on which the server branches, and the
-- errors of encoding/json and os, whose texts are others.
pub data StoreError : Type 0 where
  not_found forbidden invalid_action : StoreError
  io_error corrupt_agents corrupt_messages : StoreError

pub data Result (A : Type 0) : Type 0 where
  ok : A → Result A
  err : StoreError → Result A

abbrev pub agents_file : String
agents_file = "agents.json"

abbrev pub messages_file : String
messages_file = "messages.json"

-- The loop of AddMessage over the stored messages.
unfoldable pub find_existing : String → String → List AgentMessage → Option AgentMessage
find_existing sender key [] = none
find_existing sender key (m ∷ ms) =
    if m.sender == sender && m.idempotency_key == key then some m else find_existing sender key ms

-- The `switch action` of TransitionMessage: `none` is its default.
unfoldable pub apply_action : Time → String → String → AgentMessage → Option AgentMessage
apply_action now action result msg =
    let finishable = not (msg.status == status_completed) && not (msg.status == status_failed) in
    if action == "acknowledge"
    then some (
        if msg.status == status_pending
        then record msg { status = status_acknowledged; acknowledged_at = some now }
        else msg)
    else if action == "complete"
    then some (
        if finishable
        then record msg { status = status_completed; completed_at = some now; result = result }
        else msg)
    else if action == "fail"
    then some (
        if finishable
        then record msg { status = status_failed; completed_at = some now; result = result }
        else msg)
    else none

-- The test of GetInbox's loop.
abbrev pub is_open : String → Time → AgentMessage → Bool
is_open recipient now m =
    m.recipient == recipient
    && ltb now m.expires_at
    && (m.status == status_pending || m.status == status_acknowledged)

unfoldable pub collect : String → Time → List AgentMessage → List AgentMessage
collect recipient now [] = []
collect recipient now (m ∷ ms) =
    let rest = collect recipient now ms in if is_open recipient now m then m ∷ rest else rest

module _ {D : Type 0} where
  unfoldable pub get_agent : String → Store D → Option AgentRegistration
  get_agent name s = lookup name s.agents

  unfoldable pub get_message : String → Store D → Option AgentMessage
  get_message id s = lookup id s.messages

  -- The clock is read once for the whole loop.
  unfoldable pub get_inbox : String → Time → Store D → List AgentMessage
  unfolding collect
  get_inbox recipient now s = collect recipient now (values s.messages)

module _ {D : Type 0} (os : FileSystem D) (json : StoreJson) where
  -- One file of `save`: marshal, then write.
  unfoldable pub save_file : String → Option String → D → D × Bool
  save_file path none d = (d, false)
  save_file path (some text) d = atomic_write os path text d

  unfoldable pub save_disk : Dict AgentRegistration → Dict AgentMessage → D → D × Bool
  save_disk agents messages d =
      let (d', saved) = save_file agents_file (json.marshal_agents agents) d in
      if saved then save_file messages_file (json.marshal_messages messages) d' else (d', false)

  unfoldable pub save : Store D → Store D × Bool
  save s = let (d', saved) = save_disk s.agents s.messages s.disk in (record s { disk = d' }, saved)

  unfoldable pub load_messages : Dict AgentRegistration → Store D → Option String → Result (Store D)
  load_messages agents s none = ok (record s { agents = agents })
  load_messages agents s (some text) = elim (json.unmarshal_messages text) [
    | none ↦ err corrupt_messages
    | some messages ↦ ok (record s { agents = agents; messages = messages })
  ]

  unfoldable pub load : Store D → Result (Store D)
  unfolding load_messages
  load s = elim (os.read_file agents_file s.disk) [
    | none ↦ load_messages s.agents s (os.read_file messages_file s.disk)
    | some text ↦ elim (json.unmarshal_agents text) [
      | none ↦ err corrupt_agents
      | some agents ↦ load_messages agents s (os.read_file messages_file s.disk)
    ]
  ]

  -- NewStore: the arguments say whether UserHomeDir and MkdirAll succeeded.
  unfoldable pub new_store : Bool → Bool → D → Result (Store D)
  new_store has_home made_dir d =
      let loaded = load (record { agents = []; messages = []; disk = d }) in
      if has_home then (if made_dir then loaded else err io_error) else err io_error

  unfoldable pub register_agent : String → String → Time → Store D → Store D × Bool
  register_agent name token_hash now s = save (record s {
    agents =
        insert name (record { name = name; token_hash = token_hash; created_at = now }) s.agents;
  })

  -- The message comes back beside the error, as in Go.
  unfoldable pub store_message : AgentMessage → Store D → Store D × AgentMessage × Bool
  store_message msg s = elim (lookup msg.id s.messages) [
    | some _ ↦ (s, msg, true)
    | none ↦
        let (s', saved) = save (record s { messages = insert msg.id msg s.messages }) in
        (s', msg, saved)
  ]

  unfoldable pub add_message : AgentMessage → Store D → Store D × AgentMessage × Bool
  add_message msg s =
      if msg.idempotency_key == ""
      then store_message msg s
      else elim (find_existing msg.sender msg.idempotency_key (values s.messages)) [
        | some existing ↦ (s, existing, true)
        | none ↦ store_message msg s
      ]

  unfoldable pub commit_message : String → AgentMessage → Store D → Store D × Result AgentMessage
  commit_message id msg s =
      let (s', saved) = save (record s { messages = insert id msg s.messages }) in
      (s', if saved then ok msg else err io_error)

  unfoldable pub transition_message :
      String → String → String → String → Time → Store D → Store D × Result AgentMessage
  transition_message id recipient action result now s = elim (lookup id s.messages) [
    | none ↦ (s, err not_found)
    | some msg ↦
        if not (msg.recipient == recipient)
        then (s, err forbidden)
        else elim (apply_action now action result msg) [
          | none ↦ (s, err invalid_action)
          | some msg' ↦ commit_message id msg' s
        ]
  ]
