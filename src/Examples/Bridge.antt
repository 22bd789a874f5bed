-- ===== src/Examples/Bridge.antt =====
-- A message store with one agent and one message, on a file system in memory.
use mathlib.Core.List.{Memᴰ}
use forge_grid.Prelude.{
  ◌+◌, before_last, cut_at, cut_prefix, ◌≤◌, ◌≡◌, ◌↔◌, ◌⊎◌, refl, String, true, Option, none, some,
  [], ◌∷◌, arith, eq_iff, length, ltb, if◌then◌else◌,
}
use forge_grid.Dict.{Dict, lookup}
use forge_grid.Disk.Memory.{Memory, memory}
use forge_grid.Bridge.Models.{AgentMessage, AgentRegistration, StoreJson, reindented}
use forge_grid.Bridge.Store.{Store, get_agent, get_inbox, add_message, transition_message}
use forge_grid.Bridge.Store.Add.{IsIndexed, IsFresh, add_message_retry}
use forge_grid.Bridge.Store.Transition.{◌⟶◌, IsFinal, SameEnvelope, transition_message_step}
use forge_grid.Bridge.Store.Inbox.{IsWaiting, get_inbox_iff}
use forge_grid.Bridge.Auth.{
  Limiter, empty_limiter, minute, authenticate, admit, address_of, check_header, credentials,
  check_secret,
}
use forge_grid.Bridge.Auth.Credentials.{IsGenuine, authenticate_iff}
use forge_grid.Bridge.Auth.Lockout.{Attempt, attempts, lockout_exact}
use forge_grid.Bridge.Auth.Table.{authenticate_bounded}

-- A codec for the empty maps only: saving any other one fails.
abbrev pub only_empty : {V : Type 0} → Dict V → Option String
only_empty [] = some "{}"
only_empty (_ ∷ _) = none

pub only_empty_agents :
    (m : Dict AgentRegistration) (text : String)
    → only_empty m ≡ some text
    → (m' : Dict AgentRegistration) × (some [] ≡ some m')
      × ((k : String) → lookup k m' ≡ lookup k m)
only_empty_agents [] text h = ([], refl, λ k. refl)
only_empty_agents (_ ∷ _) text h = absurd (ground (arith, h))

pub only_empty_messages :
    (m : Dict AgentMessage) (text : String)
    → only_empty m ≡ some text
    → (m' : Dict AgentMessage) × (some [] ≡ some m')
      × ((k : String) → lookup k m' ≡ reindented (λ s. s) (lookup k m))
unfolding lookup
only_empty_messages [] text h = ([], refl, λ k. refl)
only_empty_messages (_ ∷ _) text h = absurd (ground (arith, h))

abbrev pub json : StoreJson
json = record {
  marshal_agents = only_empty;
  marshal_messages = only_empty;
  unmarshal_agents = λ text. some [];
  unmarshal_messages = λ text. some [];
  indent = λ s. s;
  agents_round_trip = only_empty_agents;
  messages_round_trip = only_empty_messages;
}

abbrev pub bob : AgentRegistration
bob = record { name = "bob"; token_hash = "secret"; created_at = 0 }

abbrev pub greeting : AgentMessage
greeting = record {
  id = "m1";
  sender = "alice";
  recipient = "bob";
  task_id = "t1";
  type = "instruction";
  body = "hello";
  idempotency_key = "k1";
  created_at = 0;
  expires_at = 100;
  status = "pending";
  acknowledged_at = none;
  completed_at = none;
  result = "";
}

abbrev pub reminder : AgentMessage
reminder = record greeting { id = "m2"; idempotency_key = "k2" }

abbrev pub disk : Memory
disk = record { files = []; budget = 9 }

abbrev pub small : Store Memory
small = record { agents = ("bob", bob) ∷ []; messages = ("m1", greeting) ∷ []; disk = disk }

pub small-IsIndexed : IsIndexed small.messages
unfolding lookup
small-IsIndexed = record {
  distinct = (refl, tt);
  at_id = λ k m h. ground (arith, eq_iff "m1" k, h);
  one_key = λ j k m n h i r. ground (arith, eq_iff "m1" j, eq_iff "m1" k, h, i);
}

transition_message_step_example :
    (n : AgentMessage) × (lookup "m1"
        (transition_message memory json "m1" "bob" "complete" "done" 5 small).0.messages
      ≡ some n)
    × SameEnvelope n greeting
    × (greeting.status ⟶ n.status)
    × ((n ≡ greeting) ⊎ ((◌≡◌ {A = String} "m1" "m1") × (greeting.recipient ≡ "bob")))
    × (IsFinal greeting → n ≡ greeting)
unfolding lookup
transition_message_step_example =
    transition_message_step memory json "m1" "bob" "complete" "done" 5 small "m1" greeting refl

add_message_retry_example :
    let first = (add_message memory json reminder small).0 in
    add_message memory json (record reminder { id = "m3" }) first ≡ (first, reminder, true)
unfolding lookup
add_message_retry_example =
    add_message_retry memory json small reminder (record reminder { id = "m3" }) small-IsIndexed
      reminder_is_fresh refl (refl, refl, λ e. ground (arith, e, eq_iff "k2" ""))
  where
    reminder_is_fresh : IsFresh reminder small.messages
    reminder_is_fresh k n h (_, key, _) = ground (arith, h, key, eq_iff "m1" k, eq_iff "k1" "k2")

get_inbox_iff_example :
    Memᴰ greeting (get_inbox "bob" 5 small)
    ↔ ((lookup greeting.id small.messages ≡ some greeting) × IsWaiting "bob" 5 greeting)
get_inbox_iff_example = get_inbox_iff "bob" 5 small greeting small-IsIndexed

-- The hash is the identity here.
abbrev pub same_text : String → String
same_text s = s

authenticate_iff_example :
    ((authenticate same_text "10.0.0.1:4000" "Bearer bob:secret" 5 small empty_limiter).1
      ≡ some "bob")
    ↔ (((admit (address_of "10.0.0.1:4000") 5 empty_limiter).1 ≡ true)
        × IsGenuine same_text "Bearer bob:secret" "bob" small)
authenticate_iff_example =
    authenticate_iff same_text "10.0.0.1:4000" "Bearer bob:secret" "bob" 5 small empty_limiter

abbrev guess : Attempt
guess = record { remote = "10.0.0.1:4000"; header = "Bearer bob:guess"; at = 5 }

lockout_exact_example :
    (authenticate same_text "10.0.0.1:4001" "Bearer bob:secret" 5 small
      (attempts same_text small (guess ∷ guess ∷ []) empty_limiter)).1
    ≡ (if ltb 10 2 then none else some "bob")
unfolding address_of before_last cut_at cut_prefix check_header credentials check_secret get_agent
    lookup
lockout_exact_example =
    lockout_exact same_text small "10.0.0.1" "10.0.0.1:4001" "Bearer bob:secret" "bob" 5
      (guess ∷ guess ∷ []) empty_limiter (omega arith) ((refl, refl), ((refl, refl), tt)) refl refl
      (omega arith) refl refl

abbrev blocked : Limiter
blocked = record { rates = ("10.0.0.1", 11) ∷ []; reset = ("10.0.0.1", 5 + minute) ∷ [] }

authenticate_bounded_example :
    length (authenticate same_text "10.0.0.1:4000" "" 5 small blocked).0.rates ≤ 20000
authenticate_bounded_example =
    authenticate_bounded same_text "10.0.0.1:4000" "" 5 small blocked (omega arith)
