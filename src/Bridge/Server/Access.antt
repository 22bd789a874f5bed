-- ===== src/Bridge/Server/Access.antt =====
-- Who may do what, over all routes.
use forge_grid.Prelude.{String, ◌≡◌, refl, sym, Option, none, some, inl, inr, ◌⊎◌, subst}
use forge_grid.Dict.{lookup}
use forge_grid.Bridge.Models.{Time, AgentMessage}
use forge_grid.Bridge.Store.{Store}
use forge_grid.Bridge.Store.Add.{IsIndexed, add_message_keeps, add_message-IsIndexed}
use forge_grid.Bridge.Store.Transition.{
  ◌⟶◌, stay, IsFinal, SameEnvelope, SameEnvelope-refl, transition_message_step,
  transition_message-IsIndexed,
}
use forge_grid.Bridge.Auth.{Limiter, authenticate}
use forge_grid.Bridge.Auth.Credentials.{IsGenuine, authenticate_iff}
use forge_grid.Bridge.Server.{
  Server, Request, Libraries, Route, to_none, handle, answer_as, enter, serve, route_of,
}
use forge_grid.Bridge.Server.Rule.{handle_rule}

-- What became of the message `m` at `k`.
pub record Moved (Mover : Type 0) (k : String) (m : AgentMessage) {D : Type 0} (s : Store D)
    : Type 0 where
  pub after : AgentMessage
  pub at_key : lookup k s.messages ≡ some after
  pub envelope : SameEnvelope after m
  pub edge : m.status ⟶ after.status
  pub by : (after ≡ m) ⊎ Mover
  pub final_stays : IsFinal m → after ≡ m

Moved-refl :
    (Mover : Type 0) (k : String) (m : AgentMessage) {D : Type 0} (s : Store D)
    → lookup k s.messages ≡ some m
    → Moved Mover k m s
Moved-refl Mover k m s at_k = record {
  after = m;
  at_key = at_k;
  envelope = SameEnvelope-refl m;
  edge = stay refl;
  by = inl refl;
  final_stays = λ _. refl;
}

module _ {D : Type 0} (libs : Libraries D) where
  handle-Moved :
      (route : Route) (id : Option String) (agent : String) (r : Request) (now : Time) (s : Store D)
      (k : String) (m : AgentMessage)
      → lookup k s.messages ≡ some m
      → Moved (m.recipient ≡ agent) k m (handle libs route id agent r now s).0
  handle-Moved route id agent r now s k m at_k =
      handle_rule libs agent now s (Moved (m.recipient ≡ agent) k m)
        (Moved-refl (m.recipient ≡ agent) k m s at_k)
        (λ msg.
          Moved-refl (m.recipient ≡ agent) k m _
            (add_message_keeps libs.os libs.store_json s msg k m at_k))
        (λ id' action result.
          let (n, at_key, envelope, edge, who, final) =
            transition_message_step libs.os libs.store_json id' agent action result now s k m
              at_k in
          record {
            after = n;
            at_key = at_key;
            envelope = envelope;
            edge = edge;
            by = elim who [ inl same ↦ inl same | inr p ↦ inr p.1 ];
            final_stays = final;
          })
        route id r

  answer_as_rule :
      (P : Store D → Type 0) (route : Route) (id : Option String) (r : Request) (now : Time)
      (srv : Server D) (l : Limiter) (agent : Option String)
      → P srv.store
      → ((name : String) → agent ≡ some name → P (handle libs route id name r now srv.store).0)
      → P (answer_as libs route id r now srv (l, agent)).0.store
  unfolding answer_as
  answer_as_rule P route id r now srv l none kept handled = kept
  answer_as_rule P route id r now srv l (some name) kept handled = handled name refl

  -- Either the store is as it was, or the request was authenticated as some agent and the route's
  -- handler ran in its name.
  enter_rule :
      (P : Store D → Type 0) (route : Route) (id : Option String) (r : Request) (now : Time)
      (srv : Server D)
      → P srv.store
      → ((name : String)
          → IsGenuine libs.sha256_hex r.authorization name srv.store
          → P (handle libs route id name r now srv.store).0)
      → P (enter libs route id r now srv).0.store
  unfolding enter
  enter_rule P to_none id r now srv kept handled = kept
  enter_rule P route id r now srv kept handled =
      let answer = authenticate libs.sha256_hex r.remote r.authorization now srv.store srv.limits in
      answer_as_rule P _ id r now srv answer.0 answer.1 kept (λ name e.
        handled name
          ((authenticate_iff libs.sha256_hex r.remote r.authorization name now srv.store
              srv.limits).0
            e).1)

  -- Whatever the request, a stored message keeps its envelope, its status moves along an edge, a
  -- completed or failed one does not change at all, and nobody changes one but a request that
  -- carries the secret of its recipient.
  pub serve-Moved :
      (id : Option String) (r : Request) (now : Time) (srv : Server D) (k : String)
      (m : AgentMessage)
      → lookup k srv.store.messages ≡ some m
      → Moved
          (IsGenuine libs.sha256_hex r.authorization m.recipient srv.store)
          k
          m
          (serve libs id r now srv).0.store
  unfolding serve
  serve-Moved id r now srv k m at_k =
      enter_rule (Moved (IsGenuine libs.sha256_hex r.authorization m.recipient srv.store) k m)
        (route_of r.path) id r now srv
        (Moved-refl (IsGenuine libs.sha256_hex r.authorization m.recipient srv.store) k m srv.store
          at_k)
        (λ name genuine.
          let h = handle-Moved (route_of r.path) id name r now srv.store k m at_k in
          record {
            after = h.after;
            at_key = h.at_key;
            envelope = h.envelope;
            edge = h.edge;
            by = elim h.by [
              | inl same ↦ inl same
              | inr mine ↦ inr (
                  subst (λ n. IsGenuine libs.sha256_hex r.authorization n srv.store) (sym mine)
                    genuine)
            ];
            final_stays = h.final_stays;
          })

  -- A request whose header is no registered agent's leaves the store alone.
  pub serve_unauthorized :
      (id : Option String) (r : Request) (now : Time) (srv : Server D)
      → ((name : String) → ¬ IsGenuine libs.sha256_hex r.authorization name srv.store)
      → (serve libs id r now srv).0.store ≡ srv.store
  unfolding serve
  serve_unauthorized id r now srv nobody =
      enter_rule (λ s. s ≡ srv.store) (route_of r.path) id r now srv refl
        (λ name genuine. absurd (nobody name genuine))

  -- Every request keeps the store well formed.
  pub serve-IsIndexed :
      (id : Option String) (r : Request) (now : Time) (srv : Server D)
      → IsIndexed srv.store.messages
      → IsIndexed (serve libs id r now srv).0.store.messages
  unfolding serve
  serve-IsIndexed id r now srv w =
      enter_rule (λ s. IsIndexed s.messages) (route_of r.path) id r now srv w
        (λ name _.
          handle_rule libs name now srv.store (λ s. IsIndexed s.messages) w
            (λ msg. add_message-IsIndexed libs.os libs.store_json srv.store msg w)
            (λ id' action result.
              transition_message-IsIndexed libs.os libs.store_json id' name action result now
                srv.store w)
            (route_of r.path) id r)
