-- ===== src/Coordinator/Server/Invariant.antt =====
-- What every request keeps true of the coordinator's maps.
use Prim.Native.String.{◌++◌}
use forge_grid.Prelude.{
  ℕ, String, ◌≡◌, refl, sym, ap, ◌∙◌, inl, inr, some, ◌==◌, Bool-cases, Option-cases, subst, ◌||◌,
  ltb,
}
use forge_grid.Bootstrap.Bytes.{byte_len}
use forge_grid.Coordinator.Server.Registry.{IsSound, insert-worker, insert-job}
use forge_grid.Coordinator.Server.{
  Route, to_start, to_status, to_code, to_pair, to_heartbeat, to_workers, to_test, to_jobs, to_job,
  to_manifest, to_ui, route_of, Context, Randomness, handle_start, handle_status, handle, serve,
}
use forge_grid.Dict.{Dict, lookup}
use forge_grid.Dict.Keys.{lookup_of_mem-values}
use forge_grid.Bridge.Models.{Time}
use forge_grid.Coordinator.Models.{WorkerState, Job}
use forge_grid.Coordinator.Store.{Store, save}
use forge_grid.Coordinator.Requests.{
  Request, PairRequest, Parsed, unparsed, parsed, Heartbeat, Libraries, job_id, token_of,
}
use forge_grid.Coordinator.Pairing.{
  pair, pair_parsed, handle_pair, handle_generate_code, new_worker, is_refused,
}
use forge_grid.Coordinator.Workers.{
  authorized, beat, heartbeat, heartbeat_parsed, handle_heartbeat, handle_list_workers,
}
use forge_grid.Coordinator.Jobs.{
  test_job, add_test_job, handle_test_job, handle_list_jobs, handle_job_action,
}
use forge_grid.Coordinator.Jobs.Action.{JobStep-IsHeir, authorized_sound, handle_job_action_cases}
use forge_grid.Coordinator.Manifest.{
  Manifest, Draw, execute_job, submit_manifest, submit_tasks, Checked, accepted, rejected, dispatch,
  handle_manifest,
}
use forge_grid.Coordinator.Manifest.Dispatch.{IsRange, IsDispatched, submit_manifest_sound}

module _ {D : Type 0} (libs : Libraries D) where
  open libs use {os, store_json, sha256_hex}

  abbrev pub IsSoundStore : Store D → Type 0
  IsSoundStore s = IsSound s.workers s.jobs

  pair-IsSound :
      (token random_id : String) (req : PairRequest) (now : Time) (s : Store D)
      → IsSoundStore s
      → IsSoundStore (pair libs token random_id req now s).0
  unfolding pair save new_worker
  pair-IsSound token random_id req now s h =
      elim (Bool-cases (req.node_name == "" || ltb 64 (byte_len req.node_name))) [
        | inl bad ↦ rw (bad, pair) h
        | inr named ↦ elim (Bool-cases (ltb 5 s.config.pairing_failures)) [
          | inl locked ↦ rw (named, locked, pair) h
          | inr open' ↦ elim (Bool-cases (is_refused req now s.config)) [
            | inl wrong ↦ rw (named, open', wrong, pair) h
            | inr right ↦
                rw (named, open', right, pair)
                  (insert-worker ("worker-" ++ random_id)
                    (new_worker ("worker-" ++ random_id) (sha256_hex token) req now) s.workers
                    s.jobs refl h)
          ]
        ]
      ]

  heartbeat-IsSound :
      (token : String) (req : Heartbeat) (now : Time) (s : Store D)
      → IsSoundStore s
      → IsSoundStore (heartbeat libs token req now s).0
  unfolding heartbeat save beat
  heartbeat-IsSound token req now s h =
      elim (Option-cases (authorized sha256_hex req.worker_id token s.workers)) [
        | inl refused ↦ rw (refused, heartbeat) h
        | inr (w, allowed) ↦
            let (found, _) = authorized_sound sha256_hex req.worker_id token s.workers w allowed in
            rw (allowed, heartbeat)
              (insert-worker req.worker_id (beat req now w) s.workers s.jobs
                (h.at_id req.worker_id w found) h)
      ]

  add_test_job-IsSound :
      (random_id challenge worker_id : String) (s : Store D)
      → IsSoundStore s
      → IsSoundStore (add_test_job libs random_id challenge worker_id s).0
  unfolding add_test_job save test_job
  add_test_job-IsSound random_id challenge worker_id s h =
      elim (Option-cases (lookup worker_id s.workers)) [
        | inl missing ↦ rw (missing, add_test_job) h
        | inr (w, found) ↦
            rw (found, add_test_job)
              (insert-job (job_id random_id) (test_job (job_id random_id) worker_id challenge) w
                s.workers s.jobs found h)
      ]

  handle_job_action-IsSound :
      (r : Request) (now : Time) (s : Store D)
      → IsSoundStore s
      → IsSoundStore (handle_job_action libs r now s).0
  unfolding save
  handle_job_action-IsSound r now s h = elim (handle_job_action_cases libs r now s) [
    | inl same ↦ subst IsSoundStore (sym same) h
    | inr c ↦
        let (w, found) = h.assigned c.id c.before c.stored in
        let heir = JobStep-IsHeir c.step in
        subst IsSoundStore (sym c.result) (
          insert-job c.id c.after w s.workers s.jobs
            (ap (λ (i : String). lookup i s.workers) heir.same_worker ∙ found) h)
  ]

  submit_manifest-IsSound :
      (draw : ℕ → Draw) (m : Manifest) (s : Store D)
      → ((i : ℕ) → IsRange (draw i).visit)
      → IsSoundStore s
      → IsSound s.workers (submit_manifest libs draw m s).0.jobs
  unfolding execute_job
  submit_manifest-IsSound draw m s range h = record {
    distinct = h.distinct;
    at_id = h.at_id;
    assigned = λ id job found. elim (submit_manifest_sound libs draw m s id job range found) [
      | inl old ↦ h.assigned id job old
      | inr d ↦ placed id job d
    ];
  }
    where
      placed :
          (id : String) (job : Job)
          → IsDispatched s.workers m.tasks id job
          → (w : WorkerState) × (lookup job.worker_id s.workers ≡ some w)
      placed id job d =
          let (k, at_k) = lookup_of_mem-values d.worker s.workers h.distinct d.fit.known in
          (
            d.worker,
            ap (λ (j : Job). lookup j.worker_id s.workers) d.exact
                ∙ ap (λ (i : String). lookup i s.workers) (h.at_id k d.worker at_k)
                ∙ at_k,
          )

  submit_manifest_workers :
      (draw : ℕ → Draw) (m : Manifest) (s : Store D)
      → (submit_manifest libs draw m s).0.workers ≡ s.workers
  unfolding submit_manifest save
  submit_manifest_workers draw m s =
      elim (Option-cases (submit_tasks draw s.workers 0 m.tasks s.jobs).1) [
        | inl done ↦ rw (done, submit_manifest) refl
        | inr (name, failed) ↦ rw (failed, submit_manifest) refl
      ]

  pub dispatch_is :
      (draw : ℕ → Draw) (m : Manifest) (s : Store D)
      → (dispatch libs draw (accepted m) s).0 ≡ (submit_manifest libs draw m s).0
  unfolding dispatch
  dispatch_is draw m s = elim (Option-cases (submit_manifest libs draw m s).1) [
    | inl done ↦ rw (done, dispatch) refl
    | inr (name, failed) ↦ rw (failed, dispatch) refl
  ]

  dispatch-IsSound :
      (draw : ℕ → Draw) (c : Checked) (s : Store D)
      → ((i : ℕ) → IsRange (draw i).visit)
      → IsSoundStore s
      → IsSoundStore (dispatch libs draw c s).0
  unfolding dispatch
  dispatch-IsSound draw (rejected e) s range h = h
  dispatch-IsSound draw (accepted m) s range h = subst IsSoundStore (sym (dispatch_is draw m s)) (
      subst (λ (ws : Dict WorkerState). IsSound ws (submit_manifest libs draw m s).0.jobs)
        (sym (submit_manifest_workers draw m s)) (submit_manifest-IsSound draw m s range h))

  pair_parsed-IsSound :
      (token random_id : String) (p : Parsed PairRequest) (now : Time) (s : Store D)
      → IsSoundStore s
      → IsSoundStore (pair_parsed libs token random_id p now s).0
  unfolding pair_parsed
  pair_parsed-IsSound token random_id (unparsed text) now s h = h
  pair_parsed-IsSound token random_id (parsed req) now s h =
      pair-IsSound token random_id req now s h

  heartbeat_parsed-IsSound :
      (token : String) (p : Parsed Heartbeat) (now : Time) (s : Store D)
      → IsSoundStore s
      → IsSoundStore (heartbeat_parsed libs token p now s).0
  unfolding heartbeat_parsed
  heartbeat_parsed-IsSound token (unparsed text) now s h = h
  heartbeat_parsed-IsSound token (parsed req) now s h = heartbeat-IsSound token req now s h

  handle_test_job-IsSound :
      (random_id challenge : String) (r : Request) (s : Store D)
      → IsSoundStore s
      → IsSoundStore (handle_test_job libs random_id challenge r s).0
  unfolding handle_test_job
  handle_test_job-IsSound random_id challenge r s h =
      go (libs.request_json.decode_test 1024 r.body) refl
    where
      go :
          (p : Parsed String)
          → libs.request_json.decode_test 1024 r.body ≡ p
          → IsSoundStore (handle_test_job libs random_id challenge r s).0
      go (unparsed text) e = rw (e, handle_test_job) h
      go (parsed worker_id) e =
          rw (e, handle_test_job) (add_test_job-IsSound random_id challenge worker_id s h)

  pub handle_list_jobs_keeps : (r : Request) (s : Store D) → (handle_list_jobs libs r s).0 ≡ s
  unfolding handle_list_jobs
  handle_list_jobs_keeps r s = elim (Bool-cases (r.worker_query == "")) [
    | inl all ↦ rw (all, handle_list_jobs) refl
    | inr one ↦ elim (Option-cases (authorized sha256_hex r.worker_query (token_of r) s.workers)) [
      | inl refused ↦ rw (one, refused, handle_list_jobs) refl
      | inr (w, allowed) ↦ rw (one, allowed, handle_list_jobs) refl
    ]
  ]

  module _ (context : Context) (random : Randomness) (r : Request) (now : Time) (s : Store D) where
    handle-IsSound :
        (route : Route)
        → ((i : ℕ) → IsRange (random.draw i).visit)
        → IsSoundStore s
        → IsSoundStore (handle libs context route random r now s).0
    unfolding handle handle_start handle_status handle_generate_code handle_pair handle_heartbeat
        handle_list_workers handle_manifest save
    handle-IsSound to_start range h = h
    handle-IsSound to_status range h = h
    handle-IsSound to_code range h = elim (Bool-cases (r.method == "POST")) [
      | inl post ↦ rw (post, handle_generate_code) h
      | inr other ↦ rw (other, handle_generate_code) h
    ]
    handle-IsSound to_pair range h = pair_parsed-IsSound random.secret random.text _ now s h
    handle-IsSound to_heartbeat range h = heartbeat_parsed-IsSound (token_of r) _ now s h
    handle-IsSound to_workers range h = h
    handle-IsSound to_test range h = handle_test_job-IsSound random.text random.secret r s h
    handle-IsSound to_jobs range h = subst IsSoundStore (sym (handle_list_jobs_keeps r s)) h
    handle-IsSound to_job range h = handle_job_action-IsSound r now s h
    handle-IsSound to_manifest range h = elim (Bool-cases (r.method == "POST")) [
      | inl post ↦ rw (post, handle_manifest) (dispatch-IsSound random.draw _ s range h)
      | inr other ↦ rw (other, handle_manifest) h
    ]
    handle-IsSound to_ui range h = h

    -- Every request, on whatever route, keeps each worker at its id and each job with a registered
    -- worker, if a manifest's dispatch visits the entries of the map of workers, in any order.
    pub serve-IsSound :
        ((i : ℕ) → IsRange (random.draw i).visit)
        → IsSoundStore s
        → IsSoundStore (serve libs context random r now s).0
    unfolding serve
    serve-IsSound range h = handle-IsSound (route_of r.path) range h
