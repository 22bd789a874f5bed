-- ===== src/Coordinator/Jobs/Action.antt =====
-- `handleJobAction` on the store: which jobs a request can change, and how.
use forge_grid.Prelude.{
  ◌&&◌, not, String, ◌≡◌, refl, ap, ◌∙◌, ◌⊎◌, inl, inr, some, List, arith, ◌==◌, eq_iff, Bool-cases,
  Option-cases, split, get_elem?, length, nat_eq, get_or, subst,
}
use forge_grid.Dict.{Dict, lookup, insert, lookup-insert}
use forge_grid.Bridge.Models.{Time}
use forge_grid.Coordinator.Models.{WorkerState, Job}
use forge_grid.Coordinator.Store.{Store, save}
use forge_grid.Coordinator.Workers.{authorized}
use forge_grid.Coordinator.Requests.{
  Request, JobUpdate, Parsed, unparsed, parsed, Libraries, token_of,
}
use forge_grid.Coordinator.Jobs.{
  update_job, cancel_job, put_job, apply_update, post_job, job_action, handle_job_action,
}
use forge_grid.Coordinator.Jobs.Update.{IsHeir, IsHeir-refl, cancel_job-IsHeir, update_job-IsHeir}

-- How one request can change a job: anyone cancels it; the worker it is assigned to, which shows
-- its token, updates the attempt it holds or the first one.
pub data JobStep : (String → String) → Dict WorkerState → Job → Job → Type 0 where
  cancelled :
      {h : String → String} {ws : Dict WorkerState} {j : Job} (now : Time)
      → JobStep h ws j (cancel_job now j)
  updated :
      {h : String → String} {ws : Dict WorkerState} {j : Job} (now : Time) (req : JobUpdate)
      (w : WorkerState) (token : String)
      → lookup j.worker_id ws ≡ some w
      → w.token_hash ≡ h token
      → (j.attempt_id ≡ "") ⊎ (req.attempt_id ≡ j.attempt_id)
      → JobStep h ws j (update_job h req now j)

pub JobStep-IsHeir :
    {h : String → String} {ws : Dict WorkerState} {j k : Job} → JobStep h ws j k → IsHeir j k
JobStep-IsHeir {j = j} (cancelled now) = cancel_job-IsHeir now j
JobStep-IsHeir {h = h} {j = j} (updated now req w token found shown held) =
    update_job-IsHeir h req now j

pub authorized_sound :
    (h : String → String) (id token : String) (ws : Dict WorkerState) (w : WorkerState)
    → authorized h id token ws ≡ some w
    → (lookup id ws ≡ some w) × (w.token_hash ≡ h token)
unfolding authorized
authorized_sound h id token ws w e = elim (Option-cases (lookup id ws)) [
  | inl missing ↦ absurd (ground arith)
  | inr (v, found) ↦ elim (Bool-cases (v.token_hash == h token)) [
    | inr wrong ↦ absurd (ground arith)
    | inl right ↦
        let same : v ≡ w = ground arith in
        (rw (← same) found, rw (← same) ((eq_iff v.token_hash (h token)).0 right))
  ]
]

module _ {D : Type 0} (libs : Libraries D) where
  open libs use {os, store_json, sha256_hex}

  -- What a request for one job did to the store: it changed one stored job, and saved.
  pub record Changed (s t : Store D) : Type 0 where
    pub id : String
    pub before : Job
    pub after : Job
    pub stored : lookup id s.jobs ≡ some before
    pub step : JobStep sha256_hex s.workers before after
    pub result : t ≡ save os store_json (record s { jobs = insert id after s.jobs })

  apply_update_cases :
      (id : String) (job : Job) (p : Parsed JobUpdate) (w : WorkerState) (token : String)
      (now : Time) (s : Store D)
      → lookup id s.jobs ≡ some job
      → lookup job.worker_id s.workers ≡ some w
      → w.token_hash ≡ sha256_hex token
      → ((apply_update libs id job p now s).0 ≡ s) ⊎ Changed s (apply_update libs id job p now s).0
  unfolding apply_update put_job
  apply_update_cases id job (unparsed text) w token now s stored found shown = inl refl
  apply_update_cases id job (parsed req) w token now s stored found shown =
      elim (Bool-cases (not (job.attempt_id == "") && not (req.attempt_id == job.attempt_id))) [
        | inl conflict ↦ inl (rw conflict refl)
        | inr fine ↦ inr (record {
          id = id;
          before = job;
          after = update_job sha256_hex req now job;
          stored = stored;
          step =
              updated now req w token found shown
                (ground (arith, eq_iff job.attempt_id "", eq_iff req.attempt_id job.attempt_id));
          result = rw fine refl;
        })
      ]

  job_action_cases :
      (parts : List String) (id : String) (r : Request) (now : Time) (s : Store D)
      → ((job_action libs parts id r now s).0 ≡ s) ⊎ Changed s (job_action libs parts id r now s).0
  unfolding job_action post_job put_job
  job_action_cases parts id r now s = elim (Option-cases (lookup id s.jobs)) [
    | inl missing ↦ inl (rw (missing, job_action) refl)
    | inr (job, stored) ↦
        rw (stored, job_action)
          (elim (Bool-cases (r.method == "GET")) [
            | inl get ↦ inl (rw get refl)
            | inr other ↦ rw other (elim (Bool-cases (r.method == "POST")) [
              | inr neither ↦ inl (rw neither refl)
              | inl post ↦ rw post (posted job stored)
            ])
          ])
  ]
    where
      posted :
          (job : Job)
          → lookup id s.jobs ≡ some job
          → ((post_job libs parts id job r now s).0 ≡ s)
            ⊎ Changed s (post_job libs parts id job r now s).0
      posted job stored =
          elim (Bool-cases (nat_eq (length parts) 5 && get_or (get_elem? parts 4) "" == "cancel")) [
            | inl cancel ↦ rw cancel (
                inr (record {
                  id = id;
                  before = job;
                  after = cancel_job now job;
                  stored = stored;
                  step = cancelled now;
                  result = refl;
                }))
            | inr update ↦
                rw update
                  (elim (Option-cases
                    (authorized sha256_hex job.worker_id (token_of r) s.workers)) [
                      | inl refused ↦ inl (rw refused refl)
                      | inr (w, allowed) ↦
                          let (found, shown) =
                            authorized_sound sha256_hex job.worker_id (token_of r) s.workers w
                              allowed in
                          rw allowed (
                            apply_update_cases id job (libs.request_json.decode_update 65536 r.body)
                              w (token_of r) now s stored found shown)
                    ])
          ]

  -- A request for one job leaves the store as it is, or it changes one stored job by a step and saves.
  pub handle_job_action_cases :
      (r : Request) (now : Time) (s : Store D)
      → ((handle_job_action libs r now s).0 ≡ s) ⊎ Changed s (handle_job_action libs r now s).0
  unfolding handle_job_action
  handle_job_action_cases r now s = elim (Option-cases (get_elem? (split b'/' r.path) 3)) [
    | inl short ↦ inl (rw (short, handle_job_action) refl)
    | inr (id, e) ↦ rw (e, handle_job_action) (job_action_cases (split b'/' r.path) id r now s)
  ]

  -- Whatever the request, each stored job has an heir under its id: its assignment is the same, an
  -- attempt id that is set stays, and its log only grows.
  pub handle_job_action-IsHeir :
      (r : Request) (now : Time) (s : Store D) (id : String) (job : Job)
      → lookup id s.jobs ≡ some job
      → (heir : Job) × (lookup id (handle_job_action libs r now s).0.jobs ≡ some heir)
        × IsHeir job heir
  unfolding save
  handle_job_action-IsHeir r now s id job stored = elim (handle_job_action_cases r now s) [
    | inl same ↦ (job, rw same stored, IsHeir-refl job)
    | inr c ↦
        let at_id : lookup id (handle_job_action libs r now s).0.jobs
            ≡ lookup id (insert c.id c.after s.jobs) =
          ap (λ (t : Store D). lookup id t.jobs) c.result in
        elim (Bool-cases (c.id == id)) [
          | inr other ↦ (
            job,
            at_id ∙ ground (arith, lookup-insert c.id id c.after s.jobs, stored),
            IsHeir-refl job,
          )
          | inl here ↦
              let before_is : c.before ≡ job =
                ground (arith, eq_iff c.id id, c.stored, stored, here) in
              (
                c.after,
                at_id ∙ ground (arith, lookup-insert c.id id c.after s.jobs),
                subst (λ (b : Job). IsHeir b c.after) before_is (JobStep-IsHeir c.step),
              )
        ]
  ]
