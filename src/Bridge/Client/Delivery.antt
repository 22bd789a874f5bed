-- ===== src/Bridge/Client/Delivery.antt =====
-- A message from one client to another, over the relay.
use mathlib.Core.List.{Memᴰ}
use forge_grid.Prelude.{
  ℕ, ◌+◌, ◌*◌, ◌≤◌, ◌<◌, ◌≡◌, refl, ap, ◌∙◌, String, Bool, true, Option, none, some, List, arith,
}
use forge_grid.Bootstrap.Bytes.{byte_len}
use forge_grid.Dict.{Dict, lookup}
use forge_grid.Bridge.Models.{Time, AgentMessage, MessageRequest, AgentRegistration}
use forge_grid.Bridge.Store
use forge_grid.Bridge.Store.{save, store_message, add_message, transition_message, commit_message}
use forge_grid.Bridge.Store.Add.{IsIndexed, IsFresh}
use forge_grid.Bridge.Auth.{admit, address_of, authenticate}
use forge_grid.Bridge.Auth.Credentials.{IsGenuine, authenticate_iff}
use forge_grid.Bridge.Server
use forge_grid.Bridge.Server.{
  Request, Libraries, Payload, message, inbox, Route, to_messages, to_inbox, handle, answer_as,
  enter, serve, new_message, clamp_ttl, seconds,
}
use forge_grid.Bridge.Server.Rule.{handle_rule}
use forge_grid.Bridge.Server.Send.{IsAcceptable, handle_messages-inbox}
use forge_grid.Bridge.Client.{
  Client, Call, Net, ClientJson, ok, bearer_of, call_of, send_message, get_inbox,
}
use forge_grid.Bridge.Client.Relay.{Served, request_of, Occasion, Agree, relay_net}

module _ {D : Type 0} (libs : Libraries D) where
  open libs use {os, store_json, sha256_hex}

  -- A client whose calls get through to the relay as those of its agent.
  pub record IsLetIn (reaches : Call → Bool) (c : Client) (call : Call) (o : Occasion)
      (s : Server.Server D) : Type 0 where
    pub reached : reaches call ≡ true
    pub unblocked : (admit (address_of o.remote) o.now s.limits).1 ≡ true
    pub genuine : IsGenuine sha256_hex (bearer_of c) c.agent_name s.store

  let_in :
      (reaches : Call → Bool) (c : Client) (call : Call) (o : Occasion) (s : Server.Server D)
      → IsLetIn reaches c call o s
      → (authenticate sha256_hex o.remote (bearer_of c) o.now s.store s.limits).1
        ≡ some c.agent_name
  let_in reaches c call o s h =
      (authenticate_iff sha256_hex o.remote (bearer_of c) c.agent_name o.now s.store s.limits).1
        (h.unblocked, h.genuine)

  add_message_agents :
      (msg : AgentMessage) (s : Store.Store D)
      → (add_message os store_json msg s).0.agents ≡ s.agents
  unfolding add_message store_message save
  add_message_agents msg s = ground arith

  transition_message_agents :
      (id agent action result : String) (now : Time) (s : Store.Store D)
      → (transition_message os store_json id agent action result now s).0.agents ≡ s.agents
  unfolding transition_message commit_message save
  transition_message_agents id agent action result now s = ground arith

  -- No request changes the registered agents.
  handle_agents :
      (route : Route) (id : Option String) (agent : String) (r : Request) (now : Time)
      (s : Store.Store D)
      → (handle libs route id agent r now s).0.agents ≡ s.agents
  handle_agents route id agent r now s =
      handle_rule libs agent now s (λ t. t.agents ≡ s.agents) refl (λ msg. add_message_agents msg s)
        (λ id' action result. transition_message_agents id' agent action result now s) route id r

  IsGenuine-kept :
      (header name : String) (s t : Store.Store D)
      → t.agents ≡ s.agents
      → IsGenuine sha256_hex header name s
      → IsGenuine sha256_hex header name t
  IsGenuine-kept header name s t same g = record {
    secret = g.secret;
    agent = g.agent;
    header_is = g.header_is;
    plain = g.plain;
    registered = ap (λ (m : Dict AgentRegistration). lookup name m) same ∙ g.registered;
    matching = g.matching;
  }

  module _ (marshal : Payload → Option String) (reaches : Call → Bool) (occasion : ℕ → Occasion)
      (json : ClientJson) (agree : Agree libs json marshal) where
    abbrev net : Net (Served D)
    net = relay_net libs marshal reaches occasion

    -- The calls of the two methods.
    abbrev pub send_call : String → Client → Call
    send_call text c = call_of net c "POST" "/api/v1/agent-messages" text

    abbrev pub inbox_call : Client → Call
    inbox_call c = call_of net c "GET" "/api/v1/agent-messages/inbox" ""

    -- The relay behind a message, and when its next call comes.
    abbrev pub after_send : MessageRequest → Client → Served D → Served D
    after_send req from s = (send_message net json req from s).0

    abbrev pub next : MessageRequest → Client → Served D → Occasion
    next req from s = occasion (after_send req from s).calls

    send_message-handled :
        (req : MessageRequest) (text : String) (c : Client) (s : Served D)
        → json.marshal_message req ≡ some text
        → IsLetIn reaches c (send_call text c) (occasion s.calls) s.server
        → (send_message net json req c s).0.server.store
          ≡ (Server.handle_messages libs
              (occasion s.calls).fresh_id
              c.agent_name
              (request_of (occasion s.calls).remote (send_call text c))
              (occasion s.calls).now
              s.server.store).0
    unfolding send_message relay_net serve Server.route_of enter answer_as handle call_of
    send_message-handled req text c s marshalled h =
        rw (marshalled, send_message)
          (rw (h.reached, relay_net)
            (rw (let_in reaches c (send_call text c) (occasion s.calls) s.server h, answer_as)
              refl))

    get_inbox-handled :
        (c : Client) (text : String) (s : Served D)
        → marshal (inbox (Store.get_inbox c.agent_name (occasion s.calls).now s.server.store))
          ≡ some text
        → IsLetIn reaches c (inbox_call c) (occasion s.calls) s.server
        → (get_inbox net json c s).1
          ≡ ok (Store.get_inbox c.agent_name (occasion s.calls).now s.server.store)
    unfolding get_inbox relay_net serve Server.route_of enter answer_as handle call_of
        Server.handle_inbox
    get_inbox-handled c text s marshalled h =
        rw (h.reached, relay_net)
          (rw (let_in reaches c (inbox_call c) (occasion s.calls) s.server h, answer_as)
            (rw (marshalled, agree.inbox_read _ text marshalled) refl))

    -- If the sender's client reaches the relay and is let in, its request is acceptable, is
    -- marshalled to at most 512 KiB, and has an unused id and a new key, then the recipient's client, which is registered before
    -- it and not blocked, finds the message in its inbox while it is alive, if the inbox is marshalled,
    -- whether or not the relay could save it.
    pub message_delivered :
        (req : MessageRequest) (id : String) (from to : Client) (s : Served D)
        → (occasion s.calls).fresh_id ≡ some id
        → to.agent_name ≡ req.recipient
        → IsIndexed s.server.store.messages
        → IsAcceptable req s.server.store
        → (text : String) → json.marshal_message req ≡ some text
        → byte_len text ≤ 512 * 1024
        → lookup id s.server.store.messages ≡ none
        → IsFresh
            (new_message id from.agent_name req (occasion s.calls).now)
            s.server.store.messages
        → IsLetIn reaches from (send_call text from) (occasion s.calls) s.server
        → IsGenuine sha256_hex (bearer_of to) to.agent_name s.server.store
        → reaches (inbox_call to) ≡ true
        → (admit
            (address_of (next req from s).remote)
            (next req from s).now
            (after_send req from s).server.limits).1
          ≡ true
        → (next req from s).now < (occasion s.calls).now + seconds (clamp_ttl req.ttl)
        → (listed : String)
        → marshal (
            inbox (
              Store.get_inbox to.agent_name
                (next req from s).now
                (after_send req from s).server.store))
          ≡ some listed
        → (ms : List AgentMessage) × ((get_inbox net json to (after_send req from s)).1 ≡ ok ms)
          × Memᴰ (new_message id from.agent_name req (occasion s.calls).now) ms
    unfolding handle call_of
    message_delivered req id from to s drawn addressed w a text marshalled short unused fresh h
          genuine reached open' alive listed shown =
        let s' = (send_message net json req from s).0 in
        let o = occasion s.calls in
        let o' = occasion s'.calls in
        let r = request_of o.remote (send_call text from) in
        let sent = send_message-handled req text from s marshalled h in
        let drawn_store =
          sent
          ∙ ap
              (λ (d : Option String).
                (Server.handle_messages libs d from.agent_name r o.now s.server.store).0)
              drawn in
        let agents =
          ap (λ (t : Store.Store D). t.agents) sent
          ∙ handle_agents to_messages o.fresh_id from.agent_name r o.now s.server.store in
        let placed =
          handle_messages-inbox libs from.agent_name r o.now s.server.store id req w refl
            (agree.message_read (512 * 1024) req text marshalled short) a unused fresh o'.now
            alive in
        (
          Store.get_inbox to.agent_name o'.now s'.server.store,
          get_inbox-handled to listed s' shown (record {
            reached = reached;
            unblocked = open';
            genuine =
                IsGenuine-kept (bearer_of to) to.agent_name s.server.store s'.server.store agents
                  genuine;
          }),
          rw (addressed, drawn_store) placed,
        )
