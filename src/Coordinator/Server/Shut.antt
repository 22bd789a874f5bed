-- ===== src/Coordinator/Server/Shut.antt =====
-- Requests on all routes after a pairing, and after six failed guesses.
use forge_grid.Prelude.{
  ℕ, String, ◌≡◌, ◌≢◌, refl, sym, ap, ◌⊎◌, inl, inr, Bool, true, false, false≢true, List, [], ◌∷◌,
  ◌==◌, All, subst, Bool-cases, Option-cases,
}
use forge_grid.Dict.{lookup}
use forge_grid.Bridge.Models.{Time}
use forge_grid.Coordinator.Models.{CoordinatorState}
use forge_grid.Coordinator.Store.{Store, save}
use forge_grid.Coordinator.Requests.{
  Request, PairRequest, Parsed, unparsed, parsed, Heartbeat, Libraries, token_of,
}
use forge_grid.Coordinator.Pairing.{pair, pair_parsed, handle_pair}
use forge_grid.Coordinator.Workers.{
  authorized, beat, heartbeat, heartbeat_parsed, handle_heartbeat, handle_list_workers,
}
use forge_grid.Coordinator.Jobs.{add_test_job, handle_test_job, handle_job_action}
use forge_grid.Coordinator.Jobs.Action.{authorized_sound, handle_job_action_cases}
use forge_grid.Coordinator.Manifest.{
  Manifest, Draw, submit_manifest, submit_tasks, Checked, accepted, rejected, dispatch,
  handle_manifest,
}
use forge_grid.Coordinator.Server.Tokens.{IsOld, same-IsOld, equal-IsOld, chain-IsOld, insert-IsOld}
use forge_grid.Coordinator.Server.{
  Route, to_start, to_status, to_code, to_pair, to_heartbeat, to_workers, to_test, to_jobs, to_job,
  to_manifest, to_ui, route_of, Context, Randomness, handle_start, handle_status, handle, serve,
}
use forge_grid.Coordinator.Server.Invariant.{dispatch_is, handle_list_jobs_keeps}

-- One request, with what the handlers draw for it.
pub record Turn : Type 0 where
  pub random : Randomness
  pub request : Request
  pub now : Time

-- The routes but those of the pairing and of the code.
abbrev pub is_other : Route → Bool
is_other to_start = true
is_other to_status = true
is_other to_code = false
is_other to_pair = false
is_other to_heartbeat = true
is_other to_workers = true
is_other to_test = true
is_other to_jobs = true
is_other to_job = true
is_other to_manifest = true
is_other to_ui = true

pub route-cases :
    (route : Route) → (route ≡ to_code) ⊎ ((route ≡ to_pair) ⊎ (is_other route ≡ true))
route-cases to_start = inr (inr refl)
route-cases to_status = inr (inr refl)
route-cases to_code = inl refl
route-cases to_pair = inr (inl refl)
route-cases to_heartbeat = inr (inr refl)
route-cases to_workers = inr (inr refl)
route-cases to_test = inr (inr refl)
route-cases to_jobs = inr (inr refl)
route-cases to_job = inr (inr refl)
route-cases to_manifest = inr (inr refl)
route-cases to_ui = inr (inr refl)

module _ {D : Type 0} (libs : Libraries D) where
  open libs use {os, store_json, sha256_hex}

  -- The configuration is kept, and no worker is new.
  pub record Inherits (s t : Store D) : Type 0 where
    pub config : t.config ≡ s.config
    pub workers : IsOld s.workers t.workers

  same-Inherits : (s : Store D) → Inherits s s
  same-Inherits s = record { config = refl; workers = same-IsOld s.workers }

  heartbeat-Inherits :
      (token : String) (req : Heartbeat) (now : Time) (s : Store D)
      → Inherits s (heartbeat libs token req now s).0
  unfolding heartbeat save beat
  heartbeat-Inherits token req now s =
      elim (Option-cases (authorized sha256_hex req.worker_id token s.workers)) [
        | inl refused ↦ rw (refused, heartbeat) (same-Inherits s)
        | inr (w, allowed) ↦
            let (found, _) = authorized_sound sha256_hex req.worker_id token s.workers w allowed in
            rw (allowed, heartbeat)
              (record {
                config = refl;
                workers = insert-IsOld req.worker_id w (beat req now w) s.workers found refl;
              })
      ]

  heartbeat_parsed-Inherits :
      (token : String) (p : Parsed Heartbeat) (now : Time) (s : Store D)
      → Inherits s (heartbeat_parsed libs token p now s).0
  unfolding heartbeat_parsed
  heartbeat_parsed-Inherits token (unparsed text) now s = same-Inherits s
  heartbeat_parsed-Inherits token (parsed req) now s = heartbeat-Inherits token req now s

  handle_test_job-Inherits :
      (random_id challenge : String) (r : Request) (s : Store D)
      → Inherits s (handle_test_job libs random_id challenge r s).0
  unfolding handle_test_job add_test_job save
  handle_test_job-Inherits random_id challenge r s =
      go (libs.request_json.decode_test 1024 r.body) refl
    where
      added :
          (worker_id : String) → Inherits s (add_test_job libs random_id challenge worker_id s).0
      added worker_id = elim (Option-cases (lookup worker_id s.workers)) [
        | inl missing ↦ rw (missing, add_test_job) (same-Inherits s)
        | inr (w, found) ↦
            rw (found, add_test_job) (record { config = refl; workers = same-IsOld s.workers })
      ]

      go :
          (p : Parsed String)
          → libs.request_json.decode_test 1024 r.body ≡ p
          → Inherits s (handle_test_job libs random_id challenge r s).0
      go (unparsed text) e = rw (e, handle_test_job) (same-Inherits s)
      go (parsed worker_id) e = rw (e, handle_test_job) (added worker_id)

  handle_job_action-Inherits :
      (r : Request) (now : Time) (s : Store D) → Inherits s (handle_job_action libs r now s).0
  unfolding save
  handle_job_action-Inherits r now s = elim (handle_job_action_cases libs r now s) [
    | inl same ↦ subst (Inherits s) (sym same) (same-Inherits s)
    | inr c ↦
        subst (Inherits s) (sym c.result) (record { config = refl; workers = same-IsOld s.workers })
  ]

  submit_manifest-Inherits :
      (draw : ℕ → Draw) (m : Manifest) (s : Store D) → Inherits s (submit_manifest libs draw m s).0
  unfolding submit_manifest save
  submit_manifest-Inherits draw m s =
      elim (Option-cases (submit_tasks draw s.workers 0 m.tasks s.jobs).1) [
        | inl done ↦
            rw (done, submit_manifest) (record { config = refl; workers = same-IsOld s.workers })
        | inr (name, failed) ↦
            rw (failed, submit_manifest) (record { config = refl; workers = same-IsOld s.workers })
      ]

  dispatch-Inherits :
      (draw : ℕ → Draw) (c : Checked) (s : Store D) → Inherits s (dispatch libs draw c s).0
  unfolding dispatch
  dispatch-Inherits draw (rejected e) s = same-Inherits s
  dispatch-Inherits draw (accepted m) s =
      subst (Inherits s) (sym (dispatch_is libs draw m s)) (submit_manifest-Inherits draw m s)

  module _ (context : Context) where
    handle-Inherits :
        (t : Turn) (s : Store D) (route : Route)
        → is_other route ≡ true
        → Inherits s (handle libs context route t.random t.request t.now s).0
    unfolding handle handle_start handle_status handle_heartbeat handle_list_workers handle_manifest
    handle-Inherits t s to_start h = same-Inherits s
    handle-Inherits t s to_status h = same-Inherits s
    handle-Inherits t s to_code h = absurd (false≢true h)
    handle-Inherits t s to_pair h = absurd (false≢true h)
    handle-Inherits t s to_heartbeat h = heartbeat_parsed-Inherits (token_of t.request) _ t.now s
    handle-Inherits t s to_workers h = same-Inherits s
    handle-Inherits t s to_test h =
        handle_test_job-Inherits t.random.text t.random.secret t.request s
    handle-Inherits t s to_jobs h =
        subst (Inherits s) (sym (handle_list_jobs_keeps libs t.request s)) (same-Inherits s)
    handle-Inherits t s to_job h = handle_job_action-Inherits t.request t.now s
    handle-Inherits t s to_manifest h = elim (Bool-cases (t.request.method == "POST")) [
      | inl post ↦ rw (post, handle_manifest) (dispatch-Inherits t.random.draw _ s)
      | inr other ↦ rw (other, handle_manifest) (same-Inherits s)
    ]
    handle-Inherits t s to_ui h = same-Inherits s

    abbrev pub answered : Turn → Store D → Store D
    answered t s = (serve libs context t.random t.request t.now s).0

    unfoldable pub serve_all : List Turn → Store D → Store D
    serve_all [] s = s
    serve_all (t ∷ ts) s = serve_all ts (answered t s)

    pub answered-Inherits :
        (t : Turn) (s : Store D)
        → is_other (route_of t.request.path) ≡ true
        → Inherits s (answered t s)
    unfolding serve
    answered-Inherits t s h = handle-Inherits t s (route_of t.request.path) h

    pub answered_pair :
        (t : Turn) (s : Store D)
        → route_of t.request.path ≡ to_pair
        → answered t s ≡ (handle_pair libs t.random.secret t.random.text t.request t.now s).0
    unfolding serve handle
    answered_pair t s e =
        ap (λ (route : Route). (handle libs context route t.random t.request t.now s).0) e

    module _ (P : CoordinatorState → Type 0)
        (pair_kept : (token random_id : String) (req : PairRequest) (now : Time) (s : Store D)
          → P s.config
          → ((pair libs token random_id req now s).0.workers ≡ s.workers)
            × P (pair libs token random_id req now s).0.config) where
      handle_pair_kept :
          (t : Turn) (s : Store D)
          → P s.config
          → ((handle_pair libs t.random.secret t.random.text t.request t.now s).0.workers
              ≡ s.workers)
            × P (handle_pair libs t.random.secret t.random.text t.request t.now s).0.config
      unfolding handle_pair pair_parsed
      handle_pair_kept t s h = go (libs.request_json.decode_pair 4096 t.request.body)
        where
          go :
              (p : Parsed PairRequest)
              → ((pair_parsed libs t.random.secret t.random.text p t.now s).0.workers ≡ s.workers)
                × P (pair_parsed libs t.random.secret t.random.text p t.now s).0.config
          go (unparsed text) = (refl, h)
          go (parsed req) = pair_kept t.random.secret t.random.text req t.now s h

      -- A property of the configuration under which no request pairs.
      answered_kept :
          (t : Turn) (s : Store D)
          → route_of t.request.path ≢ to_code
          → P s.config
          → IsOld s.workers (answered t s).workers × P (answered t s).config
      answered_kept t s n h = elim (route-cases (route_of t.request.path)) [
        | inl code ↦ absurd (n code)
        | inr (inl pairing) ↦
            let (kept, still) = handle_pair_kept t s h in
            subst (λ (u : Store D). IsOld s.workers u.workers × P u.config)
              (sym (answered_pair t s pairing)) (equal-IsOld s.workers _ kept, still)
        | inr (inr other) ↦
            let i = answered-Inherits t s other in (i.workers, subst P (sym i.config) h)
      ]

      pub serve_all_kept :
          (ts : List Turn) (s : Store D)
          → All (λ (t : Turn). route_of t.request.path ≢ to_code) ts
          → P s.config
          → IsOld s.workers (serve_all ts s).workers × P (serve_all ts s).config
      unfolding serve_all
      serve_all_kept [] s all h = (same-IsOld s.workers, h)
      serve_all_kept (t ∷ ts) s (n, all) h =
          let (old, still) = answered_kept t s n h in
          let (older, end) = serve_all_kept ts (answered t s) all still in
          (chain-IsOld s.workers (answered t s).workers _ old older, end)
