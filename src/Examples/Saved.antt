-- ===== src/Examples/Saved.antt =====
-- A store of one agent and one completed message, on a disk in memory.
use forge_grid.Prelude.{
  ℕ, false, ◌≡◌, refl, ap, ◌∙◌, String, Bool, true, Option, none, some, [], ◌∷◌, arith, eq_iff,
  ◌==◌, ◌&&◌, nat_eq, Bool-cases, inl, inr, if◌then◌else◌,
}
use forge_grid.Dict.{Dict, lookup, insert, delete}
use forge_grid.Disk.Atomic.{atomic_write}
use forge_grid.Disk.Memory.{Memory, memory}
use forge_grid.Bridge.Models.{AgentMessage, StoreJson, reindented}
use forge_grid.Bridge.Store.{Store, save, save_file, save_disk, new_store, ok}
use forge_grid.Bridge.Store.Persist.{IsFound, new_store-save}
use forge_grid.Examples.Bridge.{greeting, disk}
use forge_grid.Examples.Commands.{eve, marshal_agents, unmarshal_agents, agents_read}
use forge_grid.Examples.Deployments.{is_absent}

abbrev raw : String
raw = "{\"ok\":true}"

abbrev spaced : String
spaced = "{ \"ok\": true }"

abbrev indent : String → String
indent text = if text == raw then spaced else text

abbrev handled : AgentMessage
handled = record greeting { status = "completed"; completed_at = some 7; result = raw }

abbrev is_seven : Option ℕ → Bool
is_seven none = false
is_seven (some n) = nat_eq n 7

abbrev is_handled : String → AgentMessage → Bool
is_handled id m =
    id == "m1"
    && (m.id == "m1"
        && (m.sender == "alice"
            && (m.recipient == "bob"
                && (m.task_id == "t1"
                    && (m.type == "instruction"
                        && (m.body == "hello"
                            && (m.idempotency_key == "k1"
                                && (nat_eq m.created_at 0
                                    && (nat_eq m.expires_at 100
                                        && (m.status == "completed"
                                            && (is_absent m.acknowledged_at
                                                && (is_seven m.completed_at
                                                    && m.result == raw))))))))))))

is_handled_sound :
    (id : String) (m : AgentMessage)
    → is_handled id m ≡ true
    → ◌≡◌ {A = Dict AgentMessage} (("m1", handled) ∷ []) ((id, m) ∷ [])
is_handled_sound id m h = ground (
  arith,
  h,
  eq_iff id "m1",
  eq_iff m.id "m1",
  eq_iff m.sender "alice",
  eq_iff m.recipient "bob",
  eq_iff m.task_id "t1",
  eq_iff m.type "instruction",
  eq_iff m.body "hello",
  eq_iff m.idempotency_key "k1",
  eq_iff m.status "completed",
  eq_iff m.result raw,
)

abbrev marshal_messages : Dict AgentMessage → Option String
marshal_messages [] = none
marshal_messages ((id, m) ∷ []) = if is_handled id m then some "m" else none
marshal_messages (_ ∷ _ ∷ _) = none

abbrev read_back : Dict AgentMessage
read_back = ("m1", record handled { result = spaced }) ∷ []

read_back-lookup :
    (k : String) → lookup k read_back ≡ reindented indent (lookup k (("m1", handled) ∷ []))
unfolding lookup
read_back-lookup k = elim (Bool-cases ("m1" == k)) [
  | inl same ↦ rw same refl
  | inr other ↦ rw other refl
]

messages_read :
    (m : Dict AgentMessage) (text : String)
    → marshal_messages m ≡ some text
    → (m' : Dict AgentMessage) × (some read_back ≡ some m')
      × ((k : String) → lookup k m' ≡ reindented indent (lookup k m))
messages_read [] text h = absurd (ground (arith, h))
messages_read ((id, m) ∷ []) text h = elim (Bool-cases (is_handled id m)) [
  | inl same ↦ (
    read_back,
    refl,
    λ k.
        read_back-lookup k
        ∙ ap (λ (d : Dict AgentMessage). reindented indent (lookup k d))
            (is_handled_sound id m same),
  )
  | inr other ↦ absurd (ground (arith, h, other))
]
messages_read (_ ∷ _ ∷ _) text h = absurd (ground (arith, h))

abbrev json : StoreJson
json = record {
  indent = indent;
  marshal_agents = marshal_agents;
  marshal_messages = marshal_messages;
  unmarshal_agents = unmarshal_agents;
  unmarshal_messages = λ text. some read_back;
  agents_round_trip = λ m text h. (m, agents_read m text h, λ k. refl);
  messages_round_trip = messages_read;
}

abbrev full : Store Memory
full = record { agents = ("eve", eve) ∷ []; messages = ("m1", handled) ∷ []; disk = disk }

new_store-save_example :
    (t : Store Memory) × (new_store memory json true true (save memory json full).0.disk ≡ ok t)
    × IsFound memory json full t
unfolding save save_disk save_file atomic_write insert delete lookup
new_store-save_example = new_store-save memory json full refl
