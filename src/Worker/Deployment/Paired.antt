-- ===== src/Worker/Deployment/Paired.antt =====
-- A worker that has paired: the coordinator takes its heartbeats.
use Prim.Native.String.{◌++◌}
use forge_grid.Prelude.{
  ℕ, ◌+◌, ◌≤◌, String, ◌≡◌, ◌≢◌, inl, inr, refl, sym, ap, ◌∙◌, Option, true, false, none, some,
  arith, ◌==◌, eq_refl, Bool-cases, Option-cases, ltb, nat_eq, ◌||◌, subst,
}
use forge_grid.Dict.{lookup, lookup-insert}
use forge_grid.Disk.{FileSystem}
use forge_grid.Bootstrap.Bytes.{byte_len}
use forge_grid.Bridge.Models.{Time}
use forge_grid.Network.{Pki}
use forge_grid.Coordinator.Models.{WorkerState, ErrorResponse}
use forge_grid.Coordinator.Store.{Store, save}
use forge_grid.Coordinator.Requests.{
  PairRequest, Reply, success, failure, paired, Parsed, parsed, unparsed, Libraries, write_error,
}
use forge_grid.Coordinator.Pairing.{is_refused, pair_parsed, handle_pair}
use forge_grid.Coordinator.Pairing
use forge_grid.Coordinator.Workers.{heartbeat, heartbeat_parsed, handle_heartbeat}
use forge_grid.Coordinator.Server.{route_of, Context, Randomness, handle, serve}
use forge_grid.Worker.{Worker, Call, Answer, Net, WorkerJson, bytes_of}
use forge_grid.Worker.Hardware.{Machine}
use forge_grid.Worker.Pair.{
  is_paired, aimed, pair_call, take_answer, pair, sent, heartbeat_of, heartbeat_call, beat_of,
  send_heartbeat,
}
use forge_grid.Worker.Deployment.{
  Listener, reaches, ReplyJson, answer_of, Agree, request_of, Served, coordinator_net,
}
use forge_grid.Worker.Deployment.Known.{trim-bearer, IsKnown, known-authorized}

-- What a pairing leaves at the coordinator: a worker under the id, with the token's hash.
record IsEnrolled {D : Type 0} (libs : Libraries D) (id token : String) (s : Store D) : Type 0 where
  pub holder : WorkerState
  pub registered : lookup id s.workers ≡ some holder
  pub own_token : holder.token_hash ≡ libs.sha256_hex token

-- An error, or an enrolment with the id and the token that the reply holds.
data PairOutcome {D : Type 0} (libs : Libraries D) : Store D × Reply → Type 0 where
  refused :
      (s : Store D) (status : ℕ) (e : ErrorResponse)
      → nat_eq status 200 ≡ false
      → PairOutcome libs (s, failure status e)
  enrolled :
      (s : Store D) (id token : String)
      → IsEnrolled libs id token s
      → PairOutcome libs (s, success (paired id token))

module _ {D : Type 0} (libs : Libraries D) where
  open libs use {os, store_json, sha256_hex}

  pair_outcome :
      (token random_id : String) (req : PairRequest) (now : Time) (s : Store D)
      → PairOutcome libs (Pairing.pair libs token random_id req now s)
  unfolding Pairing.pair write_error Pairing.new_worker save
  pair_outcome token random_id req now s =
      elim (Bool-cases (req.node_name == "" || ltb 64 (byte_len req.node_name))) [
        | inl bad ↦ rw (bad, Pairing.pair) (refused s 400 _ refl)
        | inr named ↦ elim (Bool-cases (ltb 5 s.config.pairing_failures)) [
          | inl locked ↦ rw (named, locked, Pairing.pair) (refused s 429 _ refl)
          | inr open' ↦ elim (Bool-cases (is_refused req now s.config)) [
            | inl wrong ↦ rw (named, open', wrong, Pairing.pair) (refused _ 401 _ refl)
            | inr right ↦
                rw (named, open', right, Pairing.pair)
                  (enrolled _ ("worker-" ++ random_id) token (record {
                    holder = Pairing.new_worker ("worker-" ++ random_id) (sha256_hex token) req now;
                    registered =
                        lookup-insert ("worker-" ++ random_id) ("worker-" ++ random_id)
                          (Pairing.new_worker ("worker-" ++ random_id) (sha256_hex token) req now)
                          s.workers
                        ∙ rw (eq_refl ("worker-" ++ random_id)) refl;
                    own_token = refl;
                  }))
          ]
        ]
      ]

  pair_parsed_outcome :
      (token random_id : String) (p : Parsed PairRequest) (now : Time) (s : Store D)
      → PairOutcome libs (pair_parsed libs token random_id p now s)
  unfolding pair_parsed write_error
  pair_parsed_outcome token random_id (unparsed text) now s = refused s 400 _ refl
  pair_parsed_outcome token random_id (parsed req) now s = pair_outcome token random_id req now s

  module _ {Key : Type 0} (context : Context) (replies : ReplyJson) (pki : Pki Key)
      (listener : Listener) (json : WorkerJson) (agree : Agree libs json replies)
      (random : ℕ → Randomness) (clock : ℕ → Time) where
    abbrev net : Net (Served D)
    net = coordinator_net libs context replies pki listener random clock

    answer-IsKnown :
        {E : Type 0} (files : FileSystem E) (path : String) (w : Worker) (d : E)
        (p : Store D × Reply)
        → reaches pki listener w.coordinator_url w.client ≡ true
        → PairOutcome libs p
        → (take_answer net files json path w d (some (answer_of replies p.1))).2 ≡ is_paired
        → let w' = (take_answer net files json path w d (some (answer_of replies p.1))).0 in
          IsKnown libs pki listener w'.worker_id w' p.0
    unfolding take_answer answer_of
    answer-IsKnown files path w d p reached (refused s status e bad) h =
        absurd (ground (arith, h, bad))
    answer-IsKnown files path w d p reached (enrolled s id token en) h =
        elim (Option-cases (replies.marshal_payload (paired id token))) [
          | inl bad ↦ absurd (ground (arith, h, bad, agree.nothing_read))
          | inr (text, marshalled) ↦
              rw (marshalled, agree.paired_read id token text marshalled)
                (record {
                  holder = en.holder;
                  registered = en.registered;
                  own_token = en.own_token;
                  reached = reached;
                })
        ]

    pair_unreached :
        {E : Type 0} (files : FileSystem E) (path : String) (w : Worker) (d : E)
        → (take_answer net files json path w d none).2 ≢ is_paired
    unfolding take_answer
    pair_unreached files path w d h = ground (arith, h)

    reached_net :
        (c : Call) (path query : String) (s : Served D)
        → listener.parse c.target ≡ some (path, query)
        → reaches pki listener c.base c.client ≡ true
        → net c s ≡ (
            let served =
              serve libs context
                (random s.calls)
                (request_of c path query)
                (clock s.calls)
                s.store in
            (record { store = served.0; calls = s.calls + 1 }, some (answer_of replies served.1)))
    unfolding coordinator_net
    reached_net c path query s target open' = rw (target, coordinator_net) (rw open' refl)

    shut_net :
        (c : Call) (path query : String) (s : Served D)
        → listener.parse c.target ≡ some (path, query)
        → reaches pki listener c.base c.client ≡ false
        → net c s ≡ (s, none)
    unfolding coordinator_net
    shut_net c path query s target shut = rw (target, coordinator_net) (rw shut refl)

    pair_target : listener.parse "/api/workers/pair" ≡ some ("/api/workers/pair", "")
    pair_target = listener.parse_plain "/api/workers/" "pair" refl refl

    heartbeat_target : listener.parse "/api/workers/heartbeat" ≡ some ("/api/workers/heartbeat", "")
    heartbeat_target = listener.parse_plain "/api/workers/" "heartbeat" refl refl

    -- What follows from an answer that ends in a pairing.
    abbrev IsAnswered :
        {E : Type 0} → FileSystem E → String → Worker → E → Served D × Option Answer → Type 0
    IsAnswered files path w d p =
        (take_answer net files json path w d p.1).2 ≡ is_paired
        → IsKnown libs pki listener (take_answer net files json path w d p.1).0.worker_id
            (take_answer net files json path w d p.1).0 p.0.store

    -- After a pairing that succeeds, the coordinator knows the worker by its id and token.
    pub pair-IsKnown :
        {E : Type 0} (files : FileSystem E) (path ip code fingerprint : String) (machine : Machine)
        (w : Worker) (s : Served D) (d : E)
        → (pair net files json path ip code fingerprint machine w s d).3 ≡ is_paired
        → let (s', w', _, _) = pair net files json path ip code fingerprint machine w s d in
          IsKnown libs pki listener w'.worker_id w' s'.store
    unfolding pair coordinator_net serve route_of handle handle_pair pair_call
    pair-IsKnown files path ip code fingerprint machine w s d h =
        let w1 = aimed ip fingerprint w in
        let call = pair_call net files json code machine w1 in
        let served =
          serve libs context (random s.calls) (request_of call "/api/workers/pair" "")
            (clock s.calls) s.store in
        elim (Bool-cases (reaches pki listener w1.coordinator_url w1.client)) [
          | inl open' ↦
              subst (IsAnswered files path w1 d)
                (sym (reached_net call "/api/workers/pair" "" s pair_target open'))
                (answer-IsKnown files path w1 d served open' (
                  pair_parsed_outcome (random s.calls).secret (random s.calls).text
                    (libs.request_json.decode_pair 4096 call.body) (clock s.calls) s.store))
                h
          | inr shut ↦
              subst (IsAnswered files path w1 d)
                (sym (shut_net call "/api/workers/pair" "" s pair_target shut))
                (λ e. absurd (pair_unreached files path w1 d e)) h
        ]

    -- The heartbeat is marshalled to a body that the coordinator reads.
    pub record IsSmall (machine : Machine) (w : Worker) : Type 0 where
      pub text : String
      pub marshalled : json.marshal_heartbeat (heartbeat_of machine w) ≡ some text
      pub fits : byte_len text ≤ 4096

    IsSmall-read :
        (machine : Machine) (w : Worker)
        → IsSmall machine w
        → libs.request_json.decode_heartbeat 4096
            (bytes_of (json.marshal_heartbeat (heartbeat_of machine w)))
          ≡ parsed (heartbeat_of machine w)
    IsSmall-read machine w short =
        ap (λ (o : Option String). libs.request_json.decode_heartbeat 4096 (bytes_of o))
          short.marshalled
        ∙ agree.heartbeat_read 4096 (heartbeat_of machine w) short.text short.marshalled short.fits

    -- A worker that the coordinator knows is heard: its heartbeat is not rejected.
    pub heartbeat-sent :
        (machine : Machine) (w : Worker) (s : Served D)
        → IsKnown libs pki listener w.worker_id w s.store
        → IsSmall machine w
        → (send_heartbeat net json machine w s).1 ≡ sent
    unfolding send_heartbeat heartbeat_call coordinator_net serve route_of handle handle_heartbeat
        heartbeat_parsed heartbeat beat_of answer_of
    heartbeat-sent machine w s known short =
        rw (heartbeat_target, coordinator_net)
          (rw known.reached (
            rw (IsSmall-read machine w short, trim-bearer w.token)
              (rw (known-authorized libs pki listener w.worker_id w s.store known, heartbeat)
                refl)))

    -- A worker that has paired with the coordinator is not rejected when it next sends a heartbeat,
    -- from a machine that may have changed, if the heartbeat is marshalled to at most 4096 bytes.
    pub pair_then_heartbeat :
        {E : Type 0} (files : FileSystem E) (path ip code fingerprint : String)
        (machine later : Machine) (w : Worker) (s : Served D) (d : E)
        → (pair net files json path ip code fingerprint machine w s d).3 ≡ is_paired
        → IsSmall later (pair net files json path ip code fingerprint machine w s d).1
        → (send_heartbeat net json later
            (pair net files json path ip code fingerprint machine w s d).1
            (pair net files json path ip code fingerprint machine w s d).0).1
          ≡ sent
    pair_then_heartbeat files path ip code fingerprint machine later w s d done short =
        heartbeat-sent later _ _ (pair-IsKnown files path ip code fingerprint machine w s d done)
          short
