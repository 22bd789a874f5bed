-- ===== src/Worker/Deployment/Tested.antt =====
-- A test job from its offer to its verified result, across the worker and the coordinator.
use Prim.Native.String.{◌++◌}
use forge_grid.Prelude.{
  ℕ, ◌+◌, ◌≤◌, String, ◌≡◌, ◌≢◌, ◌⊎◌, inr, refl, sym, ap, ◌∙◌, Option, some, arith, eq_iff, eq_refl,
  true,
}
use forge_grid.Dict.{lookup, insert, lookup-insert}
use forge_grid.Bootstrap.Bytes.{byte_len}
use forge_grid.Bridge.Models.{Time}
use forge_grid.Network.{Pki}
use forge_grid.Coordinator.Models.{Job}
use forge_grid.Coordinator.Store.{Store, save}
use forge_grid.Coordinator.Requests.{Request, Reply, JobUpdate, parsed, Libraries}
use forge_grid.Coordinator.Jobs.{
  update_job, put_job, apply_update, post_job, job_action, handle_job_action,
}
use forge_grid.Coordinator.Jobs.Update.{update_job-IsHeir}
use forge_grid.Coordinator.Server.{Route, Context, Randomness, handle, serve}
use forge_grid.Worker.{Worker, Net, WorkerJson, bytes_of}
use forge_grid.Worker.Execute.{
  Site, attempt_of, register, update_call, update_job_status, running_update, final_update,
  execute_job,
}
use forge_grid.Worker.Deployment.{
  is_plain, Listener, ReplyJson, Agree, request_of, Served, coordinator_net,
}
use forge_grid.Worker.Deployment.Known.{trim-bearer, IsKnown, known-authorized}
use forge_grid.Worker.Deployment.Routes.{split-job, route_of-job, job_path, IsWithout-of_plain}
use forge_grid.Worker.Deployment.Reports.{
  first_attempt, update_job_success, attempt_of-same, first-held, final_test,
}

module _ {D Key : Type 0} (libs : Libraries D) (context : Context) (replies : ReplyJson)
    (pki : Pki Key) (listener : Listener) (json : WorkerJson) (agree : Agree libs json replies)
    (random : ℕ → Randomness) (clock : ℕ → Time) where
  open libs use {os, store_json, sha256_hex}

  abbrev net : Net (Served D)
  net = coordinator_net libs context replies pki listener random clock

  abbrev served_at : Served D → Store D → Served D
  served_at s t = record { store = t; calls = s.calls + 1 }

  -- The store after an update of a job.
  abbrev updated : String → JobUpdate → Job → Served D → Served D
  updated id req job s = served_at s (
      save os store_json (record s.store {
        jobs = insert id (update_job sha256_hex req (clock s.calls) job) s.store.jobs;
      }))

  -- The request of an update.
  abbrev update_request : String → JobUpdate → Worker → Request
  update_request random_id req w =
      request_of (update_call net json ("job-" ++ random_id) req w) (job_path random_id) ""

  -- The update is marshalled to a body that the coordinator reads.
  pub record IsShort (req : JobUpdate) : Type 0 where
    pub text : String
    pub marshalled : json.marshal_update req ≡ some text
    pub fits : byte_len text ≤ 65536

  IsShort-read :
      (req : JobUpdate)
      → IsShort req
      → libs.request_json.decode_update 65536 (bytes_of (json.marshal_update req)) ≡ parsed req
  IsShort-read req short =
      ap (λ (o : Option String). libs.request_json.decode_update 65536 (bytes_of o))
        short.marshalled
      ∙ agree.update_read 65536 req short.text short.marshalled short.fits

  accepted_update :
      (id : String) (req : JobUpdate) (job : Job) (now : Time) (s : Store D)
      → (job.attempt_id ≡ "") ⊎ (req.attempt_id ≡ job.attempt_id)
      → apply_update libs id job (parsed req) now s
        ≡ put_job libs id (update_job sha256_hex req now job) s
  unfolding apply_update
  accepted_update id req job now s held =
      ground (arith, held, eq_iff job.attempt_id "", eq_iff req.attempt_id job.attempt_id)

  -- The handler's part.
  update_handled :
      (random_id : String) (req : JobUpdate) (job : Job) (w : Worker) (now : Time) (s : Store D)
      → is_plain ("job-" ++ random_id) ≡ true
      → lookup ("job-" ++ random_id) s.jobs ≡ some job
      → IsKnown libs pki listener job.worker_id w s
      → IsShort req
      → (job.attempt_id ≡ "") ⊎ (req.attempt_id ≡ job.attempt_id)
      → (handle_job_action libs (update_request random_id req w) now s).0
        ≡ save os store_json (record s {
          jobs = insert ("job-" ++ random_id) (update_job sha256_hex req now job) s.jobs;
        })
  unfolding update_call handle_job_action job_action post_job put_job
  update_handled random_id req job w now s free stored known short held =
      rw
        (
          split-job ("job-" ++ random_id) (IsWithout-of_plain ("job-" ++ random_id) free),
          handle_job_action,
        )
        (rw (stored, job_action)
          (rw
            (
              split-job ("job-" ++ random_id) (IsWithout-of_plain ("job-" ++ random_id) free),
              post_job,
            )
            (rw
              (
                trim-bearer w.token,
                known-authorized libs pki listener job.worker_id w s known,
                IsShort-read req short,
              )
              (ap (λ (p : Store D × Reply). p.0)
                (accepted_update ("job-" ++ random_id) req job now s held)))))

  job_served :
      (random_id : String) (req : JobUpdate) (w : Worker) (draw : Randomness) (now : Time)
      (s : Store D)
      → serve libs context draw (update_request random_id req w) now s
        ≡ handle_job_action libs (update_request random_id req w) now s
  unfolding serve handle update_call
  job_served random_id req w draw now s =
      ap (λ (route : Route). handle libs context route draw (update_request random_id req w) now s)
        (route_of-job random_id)

  -- An update that the worker sends arrives, if it fits and is of the attempt that the job holds.
  update_served :
      (random_id : String) (req : JobUpdate) (job : Job) (w : Worker) (s : Served D)
      → is_plain ("job-" ++ random_id) ≡ true
      → lookup ("job-" ++ random_id) s.store.jobs ≡ some job
      → IsKnown libs pki listener job.worker_id w s.store
      → IsShort req
      → (job.attempt_id ≡ "") ⊎ (req.attempt_id ≡ job.attempt_id)
      → update_job_status net json ("job-" ++ random_id) req w s
        ≡ updated ("job-" ++ random_id) req job s
  unfolding update_job_status coordinator_net serve handle update_call
  update_served random_id req job w s free stored known short held =
      rw
        (
          listener.parse_plain "/api/jobs/" ("job-" ++ random_id) refl free,
          coordinator_net,
          update_job_status,
        )
        (rw known.reached (
          ap (served_at s) (
            ap (λ (p : Store D × Reply). p.0)
              (job_served random_id req w (random s.calls) (clock s.calls) s.store)
            ∙ update_handled random_id req job w (clock s.calls) s.store free stored known short
                held)))

  updated-stored :
      (id : String) (req : JobUpdate) (job : Job) (s : Served D)
      → lookup id (updated id req job s).store.jobs
        ≡ some (update_job sha256_hex req (clock s.calls) job)
  unfolding save
  updated-stored id req job s =
      lookup-insert id id (update_job sha256_hex req (clock s.calls) job) s.store.jobs
      ∙ rw (eq_refl id) refl

  updated-IsKnown :
      (id : String) (req : JobUpdate) (job : Job) (w : Worker) (s : Served D)
      → IsKnown libs pki listener job.worker_id w s.store
      → IsKnown libs pki listener
          (update_job sha256_hex req (clock s.calls) job).worker_id
          w
          (updated id req job s).store
  unfolding save
  updated-IsKnown id req job w s known = record {
    holder = known.holder;
    registered =
        ap (λ (k : String). lookup k s.store.workers)
          (update_job-IsHeir sha256_hex req (clock s.calls) job).same_worker
        ∙ known.registered;
    own_token = known.own_token;
    reached = known.reached;
  }

  register-IsKnown :
      (id key : String) (w : Worker) (s : Store D)
      → IsKnown libs pki listener id w s
      → IsKnown libs pki listener id (register key w) s
  unfolding register
  register-IsKnown id key w s known = record {
    holder = known.holder;
    registered = known.registered;
    own_token = known.own_token;
    reached = known.reached;
  }

  -- The two updates of a run, under the id that the job has.
  abbrev two_updates : String → JobUpdate → JobUpdate → Worker → Served D → Served D
  two_updates id first last w s =
      update_job_status net json id last w (update_job_status net json id first w s)

  execute_job-updates :
      (id : String) (site : Site) (stamp : ℕ) (job : Job) (w : Worker) (s : Served D)
      → job.id ≡ id
      → (execute_job net json site stamp job w s).0
        ≡ two_updates id
            (running_update site (register job.id w) (attempt_of stamp job))
            (final_update site (register job.id w) (attempt_of stamp job))
            (register job.id w)
            s
  unfolding execute_job
  execute_job-updates id site stamp job w s named =
      let given = attempt_of stamp job in
      ap
        (λ (k : String).
          two_updates k (running_update site (register k w) given)
            (final_update site (register k w) given) (register k w) s)
        (attempt_of-same stamp job).0
      ∙ ap
          (λ (k : String).
            two_updates k (running_update site (register job.id w) given)
              (final_update site (register job.id w) given) (register job.id w) s)
          named

  -- A pending test job that the coordinator stores under its id, "job-" and a text of letters,
  -- digits and dashes,
  -- run by the worker it is assigned to, which the coordinator knows and whose client reaches it, is
  -- afterwards stored as completed with the result success, if both sides hash alike, the hash of the
  -- challenge is not empty and each of the two updates is marshalled to at most 65536 bytes.
  pub execute_job_verified :
      (random_id : String) (site : Site) (stamp : ℕ) (job : Job) (w : Worker) (s : Served D)
      → is_plain ("job-" ++ random_id) ≡ true
      → job.id ≡ "job-" ++ random_id
      → job.task ≡ "test"
      → job.status ≡ "pending"
      → lookup ("job-" ++ random_id) s.store.jobs ≡ some job
      → IsKnown libs pki listener job.worker_id w s.store
      → ((text : String) → site.sha256_hex text ≡ sha256_hex text)
      → sha256_hex job.challenge ≢ ""
      → IsShort (running_update site (register job.id w) (attempt_of stamp job))
      → IsShort (final_update site (register job.id w) (attempt_of stamp job))
      → (done : Job) × (lookup
            ("job-" ++ random_id)
            (execute_job net json site stamp job w s).0.store.jobs
          ≡ some done)
        × (done.status ≡ "completed")
        × (done.result ≡ "success")
  unfolding running_update final_update
  execute_job_verified random_id site stamp job w s free named test pending stored known alike n
        short_first short_last =
      let given = attempt_of stamp job in
      let w1 = register job.id w in
      let first = running_update site w1 given in
      let last = final_update site w1 given in
      let id = "job-" ++ random_id in
      let known1 = register-IsKnown job.worker_id job.id w s.store known in
      let served1 =
        update_served random_id first job w1 s free stored known1 short_first
          (first-held site stamp job w1) in
      let job1 = update_job sha256_hex first (clock s.calls) job in
      let s1 = updated id first job s in
      let heir = update_job-IsHeir sha256_hex first (clock s.calls) job in
      let known2 = updated-IsKnown id first job w1 s known1 in
      let served2 =
        update_served random_id last job1 w1 s1 free (updated-stored id first job s) known2
          short_last
          (inr (sym (first_attempt sha256_hex stamp job first.logs (clock s.calls) pending))) in
      let (claimed, hashed) = final_test site stamp job w1 test in
      let right : last.result ≡ sha256_hex job1.challenge =
        hashed ∙ alike job.challenge ∙ ap sha256_hex (sym heir.same_challenge) in
      let filled : last.result ≢ "" = λ e. n (sym (alike job.challenge) ∙ sym hashed ∙ e) in
      let (status, result) =
        update_job_success sha256_hex last (clock s1.calls) job1 (heir.same_task ∙ test) claimed
          right filled in
      (
        update_job sha256_hex last (clock s1.calls) job1,
        ap (λ (t : Served D). lookup id t.store.jobs)
              (execute_job-updates id site stamp job w s named
                ∙ ap (update_job_status net json id last w1) served1
                ∙ served2)
            ∙ updated-stored id last job1 s1,
        status,
        result,
      )
