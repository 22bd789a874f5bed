-- ===== src/Coordinator/Manifest/Dispatch.antt =====
-- `SubmitManifest`: where the jobs of a manifest go, and when it is refused.
use mathlib.Core.List.{Memᴰ}
use forge_grid.Prelude.{
  ℕ, suc, String, ◌≡◌, ◌≢◌, refl, sym, ap, ◌∙◌, ◌⊎◌, inl, inr, ◌↔◌, true, none, some, List, [], ◌∷◌,
  arith, ◌==◌, eq_iff, Bool-cases, Option-cases, subst,
}
use forge_grid.Dict.{Dict, lookup, insert, values, lookup-insert}
use forge_grid.Coordinator.Models.{WorkerState, Job}
use forge_grid.Coordinator.Store.{Store, save}
use forge_grid.Coordinator.Requests.{Libraries, job_id}
use forge_grid.Coordinator.Manifest.{
  Requirements, Task, Manifest, Draw, is_eligible, assign, execute_job, submit_tasks,
  submit_manifest,
}

-- A worker that the director may choose.
pub record IsFit (req : Requirements) (workers : Dict WorkerState) (w : WorkerState) : Type 0 where
  pub known : Memᴰ w (values workers)
  pub online : w.status ≡ "online"
  pub system : (req.os ≡ "") ⊎ (w.os ≡ req.os)
  pub named : w.id ≢ ""

-- `range` visits the entries of the map, all of them and no others.
pub record IsRange (visit : Dict WorkerState → List WorkerState) : Type 0 where
  pub sound : (m : Dict WorkerState) (w : WorkerState) → Memᴰ w (visit m) → Memᴰ w (values m)
  pub whole : (m : Dict WorkerState) (w : WorkerState) → Memᴰ w (values m) → Memᴰ w (visit m)

-- A job made for a task of the manifest and a worker that is fit for it.
pub record IsDispatched (workers : Dict WorkerState) (tasks : Dict Task) (id : String) (job : Job)
    : Type 0 where
  pub name : String
  pub task : Task
  pub worker : WorkerState
  pub listed : Memᴰ (name, task) tasks
  pub fit : IsFit task.requirements workers worker
  pub exact : job ≡ execute_job id worker.id task

assign_sound :
    (req : Requirements) (ws : List WorkerState)
    → assign req ws ≢ ""
    → (w : WorkerState) × Memᴰ w ws × (is_eligible req w ≡ true) × (w.id ≡ assign req ws)
unfolding assign
assign_sound req [] n = absurd (n refl)
assign_sound req (w ∷ ws) n = elim (Bool-cases (is_eligible req w)) [
  | inl fit ↦ (w, Memᴰ.head refl, fit, rw fit refl)
  | inr unfit ↦
      let (v, mem, fit, e) = assign_sound req ws (λ p. n (rw unfit p)) in
      (v, Memᴰ.tail mem, fit, rw unfit e)
]

assign_complete :
    (req : Requirements) (ws : List WorkerState) (w : WorkerState)
    → ((v : WorkerState) → Memᴰ v ws → is_eligible req v ≡ true → v.id ≢ "")
    → Memᴰ w ws
    → is_eligible req w ≡ true
    → assign req ws ≢ ""
unfolding assign
assign_complete req (v ∷ ws) w named (Memᴰ.head e) fit =
    rw (subst (λ (u : WorkerState). is_eligible req u ≡ true) e fit)
      (named v (Memᴰ.head refl) (subst (λ (u : WorkerState). is_eligible req u ≡ true) e fit))
assign_complete req (v ∷ ws) w named (Memᴰ.tail mem) fit = elim (Bool-cases (is_eligible req v)) [
  | inl first ↦ rw first (named v (Memᴰ.head refl) first)
  | inr later ↦ rw later (assign_complete req ws w (λ u m. named u (Memᴰ.tail m)) mem fit)
]
assign_complete req [] w named mem fit = elim mem [ ]

is_eligible_iff :
    (req : Requirements) (w : WorkerState)
    → (is_eligible req w ≡ true) ↔ ((w.status ≡ "online") × ((req.os ≡ "") ⊎ (w.os ≡ req.os)))
is_eligible_iff req w = (
  λ h. ground (arith, eq_iff w.status "online", eq_iff req.os "", eq_iff w.os req.os),
  λ h. ground (arith, h, eq_iff w.status "online", eq_iff req.os "", eq_iff w.os req.os),
)

assign-IsFit :
    (req : Requirements) (visit : Dict WorkerState → List WorkerState) (workers : Dict WorkerState)
    → IsRange visit
    → assign req (visit workers) ≢ ""
    → (w : WorkerState) × IsFit req workers w × (w.id ≡ assign req (visit workers))
assign-IsFit req visit workers range n =
    let (w, mem, eligible, e) = assign_sound req (visit workers) n in
    let (online, system) = (is_eligible_iff req w).0 eligible in
    (
      w,
      record {
        known = range.sound workers w mem;
        online = online;
        system = system;
        named = λ p. n (sym e ∙ p);
      },
      e,
    )

IsDispatched-later :
    (workers : Dict WorkerState) (name : String) (task : Task) (tasks : Dict Task) (id : String)
    (job : Job)
    → IsDispatched workers tasks id job
    → IsDispatched workers ((name, task) ∷ tasks) id job
IsDispatched-later workers name task tasks id job d = record {
  name = d.name;
  task = d.task;
  worker = d.worker;
  listed = Memᴰ.tail d.listed;
  fit = d.fit;
  exact = d.exact;
}

-- Each job of the map behind the loop was there before it or is for a task and a fit worker.
submit_tasks_sound :
    (draw : ℕ → Draw) (workers : Dict WorkerState) (n : ℕ) (tasks : Dict Task) (jobs : Dict Job)
    (id : String) (job : Job)
    → ((i : ℕ) → IsRange (draw i).visit)
    → lookup id (submit_tasks draw workers n tasks jobs).0 ≡ some job
    → (lookup id jobs ≡ some job) ⊎ IsDispatched workers tasks id job
unfolding submit_tasks
submit_tasks_sound draw workers n [] jobs id job range h = inl h
submit_tasks_sound draw workers n ((name, task) ∷ tasks) jobs id job range h =
    let worker_id = assign task.requirements ((draw n).visit workers) in
    let new = job_id (draw n).random_id in
    let made = execute_job new worker_id task in
    elim (Bool-cases (worker_id == "")) [
      | inl stop ↦ inl (rw stop at h)
      | inr go ↦
          elim (submit_tasks_sound draw workers (suc n) tasks (insert new made jobs) id job range
            (rw go at h)) [
              | inr d ↦ inr (IsDispatched-later workers name task tasks id job d)
              | inl there ↦ elim (Bool-cases (new == id)) [
                | inr other ↦ inl (ground (arith, lookup-insert new id made jobs, there, other))
                | inl here ↦
                    let (w, fit, e) =
                      assign-IsFit task.requirements (draw n).visit workers (range n)
                        (λ p. ground (arith, eq_iff worker_id "", p, go)) in
                    let made_is : made ≡ job =
                      ground (arith, lookup-insert new id made jobs, there, here) in
                    inr (record {
                      name = name;
                      task = task;
                      worker = w;
                      listed = Memᴰ.head refl;
                      fit = fit;
                      exact =
                          sym made_is
                          ∙ ap (λ (i : String). execute_job i worker_id task)
                              ((eq_iff new id).0 here)
                          ∙ ap (λ (i : String). execute_job id i task) (sym e);
                    })
              ]
            ]
    ]

submit_tasks_iff :
    (draw : ℕ → Draw) (workers : Dict WorkerState) (n : ℕ) (tasks : Dict Task) (jobs : Dict Job)
    → ((i : ℕ) → IsRange (draw i).visit)
    → ((w : WorkerState) → Memᴰ w (values workers) → w.id ≢ "")
    → ((submit_tasks draw workers n tasks jobs).1 ≡ none) ↔ (
        (name : String) (task : Task)
        → Memᴰ (name, task) tasks
        → (w : WorkerState) × IsFit task.requirements workers w)
unfolding submit_tasks
submit_tasks_iff draw workers n [] jobs range named = (λ h name task mem. elim mem [ ], λ h. refl)
submit_tasks_iff draw workers n ((name, task) ∷ tasks) jobs range named =
    let worker_id = assign task.requirements ((draw n).visit workers) in
    let new = job_id (draw n).random_id in
    let made = execute_job new worker_id task in
    let rest = submit_tasks_iff draw workers (suc n) tasks (insert new made jobs) range named in
    elim (Bool-cases (worker_id == "")) [
      | inl stop ↦ (
        λ h. absurd (none-some (rw stop at h)),
        λ h.
            let (w, fit) = h name task (Memᴰ.head refl) in
            absurd (
              assign_complete task.requirements ((draw n).visit workers) w
                (λ v m e. named v ((range n).sound workers v m))
                ((range n).whole workers w fit.known)
                ((is_eligible_iff task.requirements w).1 (fit.online, fit.system))
                ((eq_iff worker_id "").0 stop)),
      )
      | inr go ↦
          let (w, fit, e) =
            assign-IsFit task.requirements (draw n).visit workers (range n)
              (λ p. ground (arith, eq_iff worker_id "", p, go)) in
          (
            λ h. both w fit (rest.0 (rw go at h)),
            λ h. rw go (rest.1 (λ i t m. h i t (Memᴰ.tail m))),
          )
    ]
  where
    none-some : some name ≡ none → ⊥
    none-some p = cc

    both :
        (w : WorkerState)
        → IsFit task.requirements workers w
        → ((i : String) (t : Task)
            → Memᴰ (i, t) tasks
            → (v : WorkerState) × IsFit t.requirements workers v)
        → (i : String) (t : Task) → Memᴰ (i, t) ((name, task) ∷ tasks)
        → (v : WorkerState) × IsFit t.requirements workers v
    both w fit rest i t (Memᴰ.head e) =
        (w, subst (λ (p : String × Task). IsFit p.1.requirements workers w) (sym e) fit)
    both w fit rest i t (Memᴰ.tail m) = rest i t m

module _ {D : Type 0} (libs : Libraries D) where
  submit_manifest_is :
      (draw : ℕ → Draw) (m : Manifest) (s : Store D)
      → ((submit_manifest libs draw m s).0.jobs ≡ (submit_tasks draw s.workers 0 m.tasks s.jobs).0)
        × ((submit_manifest libs draw m s).1 ≡ (submit_tasks draw s.workers 0 m.tasks s.jobs).1)
  unfolding submit_manifest save
  submit_manifest_is draw m s =
      elim (Option-cases (submit_tasks draw s.workers 0 m.tasks s.jobs).1) [
        | inl done ↦ (rw (done, submit_manifest) refl, rw (done, submit_manifest) refl)
        | inr (name, failed) ↦
            (rw (failed, submit_manifest) refl, rw (failed, submit_manifest) refl)
      ]

  pub submit_manifest_sound :
      (draw : ℕ → Draw) (m : Manifest) (s : Store D) (id : String) (job : Job)
      → ((i : ℕ) → IsRange (draw i).visit)
      → lookup id (submit_manifest libs draw m s).0.jobs ≡ some job
      → (lookup id s.jobs ≡ some job) ⊎ IsDispatched s.workers m.tasks id job
  submit_manifest_sound draw m s id job range h =
      submit_tasks_sound draw s.workers 0 m.tasks s.jobs id job range
        (sym (ap (lookup id) (submit_manifest_is draw m s).0) ∙ h)

  -- A manifest is dispatched without an error exactly when for each of its tasks there is a worker that
  -- is online and has the system that the task asks for, if no worker of the store has the empty id;
  -- the memory and the cores that a task asks for are not looked at.
  pub submit_manifest_iff :
      (draw : ℕ → Draw) (m : Manifest) (s : Store D)
      → ((i : ℕ) → IsRange (draw i).visit)
      → ((w : WorkerState) → Memᴰ w (values s.workers) → w.id ≢ "")
      → ((submit_manifest libs draw m s).1 ≡ none) ↔ (
          (name : String) (task : Task)
          → Memᴰ (name, task) m.tasks
          → (w : WorkerState) × IsFit task.requirements s.workers w)
  submit_manifest_iff draw m s range named =
      let inner = submit_tasks_iff draw s.workers 0 m.tasks s.jobs range named in
      let same = (submit_manifest_is draw m s).1 in
      (λ h. inner.0 (sym same ∙ h), λ h. same ∙ inner.1 h)
