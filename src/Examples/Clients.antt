-- ===== src/Examples/Clients.antt =====
-- Two clients of the relay that agree with it on their JSON: each side marshals the values of one
-- exchange, and fails on any other.
use mathlib.Core.List.{Memᴰ}
use forge_grid.Prelude.{
  ℕ, ◌+◌, pos, ◌≡◌, refl, ap, String, Bool, true, Option, none, some, List, [], ◌∷◌, arith, eq_iff,
  ◌==◌, ◌&&◌, nat_eq, Bool-cases, inl, inr, if◌then◌else◌, IsWithout-of_lacks, before_last, cut_at,
  cut_prefix,
}
use forge_grid.Bootstrap.Bytes.{byte_len, utf8, encode_rune}
use forge_grid.Dict.{lookup, insert, delete, values}
use forge_grid.Disk.Memory.{Memory}
use forge_grid.Bridge.Models.{AgentMessage, MessageRequest, one}
use forge_grid.Bridge.Store
use forge_grid.Bridge.Store.Add.{IsIndexed, IsFresh}
use forge_grid.Bridge.Auth.{
  empty_limiter, authenticate, admit, address_of, check_header, credentials, check_secret,
  note_success,
}
use forge_grid.Bridge.Auth.Credentials.{IsGenuine}
use forge_grid.Bridge.Server
use forge_grid.Bridge.Server.{
  Payload, message, inbox, Libraries, check_request, is_listed, new_message, clamp_ttl,
}
use forge_grid.Bridge.Server.Send.{IsAcceptable, check_request_iff}
use forge_grid.Bridge.Client.{
  Client, trust_pin, Call, ClientJson, ok, bearer_of, call_of, send_message, get_inbox,
}
use forge_grid.Bridge.Client.Relay.{Served, Occasion, Agree, relay_net}
use forge_grid.Bridge.Client.Delivery.{IsLetIn, send_call, after_send, message_delivered}
use forge_grid.Examples.Bridge.{bob, disk, same_text}
use forge_grid.Examples.Deployments.{same_int, same_int_sound, is_absent}
use forge_grid.Examples.Requests
use forge_grid.Examples.Requests.{wanted}

abbrev libs : Libraries Memory
libs = Requests.libs

abbrev is_wanted : MessageRequest → Bool
is_wanted r =
    r.recipient == "bob"
    && (r.task_id == "t1"
        && (r.type == "answer"
            && (r.body == "hello" && (same_int r.ttl (pos 60) && r.idempotency_key == "k1"))))

is_wanted_sound : (r : MessageRequest) → is_wanted r ≡ true → wanted ≡ r
is_wanted_sound r h = ground (
  arith,
  h,
  eq_iff r.recipient "bob",
  eq_iff r.task_id "t1",
  eq_iff r.type "answer",
  eq_iff r.body "hello",
  eq_iff r.idempotency_key "k1",
  same_int_sound r.ttl (pos 60),
)

abbrev note : AgentMessage
note = record {
  id = "m2";
  sender = "alice";
  recipient = "bob";
  task_id = "t1";
  type = "answer";
  body = "hello";
  idempotency_key = "k1";
  created_at = 5;
  expires_at = 60000000005;
  status = "pending";
  acknowledged_at = none;
  completed_at = none;
  result = "";
}

abbrev is_note : AgentMessage → Bool
is_note m =
    m.id == "m2"
    && (m.sender == "alice"
        && (m.recipient == "bob"
            && (m.task_id == "t1"
                && (m.type == "answer"
                    && (m.body == "hello"
                        && (m.idempotency_key == "k1"
                            && (nat_eq m.created_at 5
                                && (nat_eq m.expires_at 60000000005
                                    && (m.status == "pending"
                                        && (is_absent m.acknowledged_at
                                            && (is_absent m.completed_at
                                                && m.result == "")))))))))))

is_note_sound : (m : AgentMessage) → is_note m ≡ true → note ≡ m
is_note_sound m h = ground (
  arith,
  h,
  eq_iff m.id "m2",
  eq_iff m.sender "alice",
  eq_iff m.recipient "bob",
  eq_iff m.task_id "t1",
  eq_iff m.type "answer",
  eq_iff m.body "hello",
  eq_iff m.idempotency_key "k1",
  eq_iff m.status "pending",
  eq_iff m.result "",
)

abbrev marshal : Payload → Option String
marshal (message m) = if is_note m then some "n" else none
marshal (inbox (m ∷ [])) = if is_note m then some "n" else none
marshal _ = none

abbrev json : ClientJson
json = record {
  marshal_message = λ r. if is_wanted r then some "m" else none;
  marshal_result = λ text. some text;
  decode_message = λ text. some note;
  decode_inbox = λ text. some (note ∷ []);
}

message_read :
    (r : MessageRequest) (text : String)
    → (if is_wanted r then some "m" else none) ≡ some text
    → one wanted ≡ one r
message_read r text h = elim (Bool-cases (is_wanted r)) [
  | inl same ↦ ap one (is_wanted_sound r same)
  | inr other ↦ absurd (ground (arith, h, other))
]

reply_read :
    (m : AgentMessage) (text : String) → marshal (message m) ≡ some text → some note ≡ some m
reply_read m text h = elim (Bool-cases (is_note m)) [
  | inl same ↦ ap some (is_note_sound m same)
  | inr other ↦ absurd (ground (arith, h, other))
]

inbox_read :
    (ms : List AgentMessage) (text : String)
    → marshal (inbox ms) ≡ some text
    → some (note ∷ []) ≡ some ms
inbox_read [] text h = absurd (ground (arith, h))
inbox_read (m ∷ []) text h = elim (Bool-cases (is_note m)) [
  | inl same ↦ ap (λ (n : AgentMessage). some (n ∷ [])) (is_note_sound m same)
  | inr other ↦ absurd (ground (arith, h, other))
]
inbox_read (_ ∷ _ ∷ _) text h = absurd (ground (arith, h))

agree : Agree libs json marshal
agree = record {
  message_read = λ limit r text h fits. message_read r text h;
  reply_read = reply_read;
  inbox_read = inbox_read;
}

abbrev alice_client : Client
alice_client = record {
  base_url = "https://relay";
  agent_name = "alice";
  token = "hush";
  trust = trust_pin "f";
}

abbrev bob_client : Client
bob_client = record alice_client { agent_name = "bob"; token = "secret" }

abbrev store : Store.Store Memory
store = record {
  agents =
      ("alice", record { name = "alice"; token_hash = "hush"; created_at = 0 }) ∷ ("bob", bob) ∷ [];
  messages = [];
  disk = disk;
}

abbrev served : Served Memory
served = record { server = record { store = store; limits = empty_limiter }; calls = 0 }

abbrev reaches : Call → Bool
reaches c = true

abbrev occasion : ℕ → Occasion
occasion n = record { remote = "10.0.0.1:4000"; fresh_id = some "m2"; now = 5 + n }

store-IsIndexed : IsIndexed store.messages
unfolding lookup
store-IsIndexed = record {
  distinct = tt;
  at_id = λ k m h. absurd (ground (arith, h));
  one_key = λ j k m n h i r. absurd (ground (arith, h));
}

wanted-IsAcceptable : IsAcceptable wanted store
unfolding check_request is_listed byte_len utf8 encode_rune lookup
wanted-IsAcceptable = (check_request_iff wanted store).0 refl

wanted-IsFresh : IsFresh (new_message "m2" "alice" wanted 5) store.messages
unfolding lookup
wanted-IsFresh k n h = absurd (ground (arith, h))

alice-IsLetIn :
    IsLetIn libs reaches alice_client
      (send_call libs marshal reaches occasion json agree "m" alice_client)
      (occasion 0)
      served.server
unfolding lookup bearer_of admit address_of before_last
alice-IsLetIn = record {
  reached = refl;
  unblocked = refl;
  genuine = record {
    secret = "hush";
    agent = record { name = "alice"; token_hash = "hush"; created_at = 0 };
    header_is = refl;
    plain = IsWithout-of_lacks _ "alice" refl;
    registered = refl;
    matching = refl;
  };
}

bob-IsGenuine : IsGenuine same_text (bearer_of bob_client) "bob" store
unfolding lookup bearer_of
bob-IsGenuine = record {
  secret = "secret";
  agent = bob;
  header_is = refl;
  plain = IsWithout-of_lacks _ "bob" refl;
  registered = refl;
  matching = refl;
}

message_delivered_example :
    let s' = after_send libs marshal reaches occasion json agree wanted alice_client served in
    (ms : List AgentMessage) × ((get_inbox
        (relay_net libs marshal reaches occasion)
        json
        bob_client
        s').1
      ≡ ok ms)
    × Memᴰ (new_message "m2" "alice" wanted 5) ms
unfolding lookup byte_len utf8 encode_rune send_message relay_net call_of bearer_of Server.serve
    Server.route_of Server.enter Server.answer_as Server.handle Server.handle_messages
    Server.receive_message Server.check_and_send check_request is_listed Server.send_message
    new_message clamp_ttl Store.add_message Store.find_existing Store.store_message Store.save
    Store.get_agent Store.get_inbox authenticate admit address_of before_last check_header
    credentials check_secret cut_at cut_prefix insert values note_success delete
message_delivered_example =
    message_delivered libs marshal reaches occasion json agree wanted "m2" alice_client bob_client
      served refl refl store-IsIndexed wanted-IsAcceptable "m" refl (omega arith) refl
      wanted-IsFresh alice-IsLetIn bob-IsGenuine refl refl (omega arith) "n" refl
