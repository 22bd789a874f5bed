-- ===== src/Worker/Deployment/Polled.antt =====
-- A worker that asks the coordinator for jobs.
use mathlib.Core.List.{Memᴰ}
use forge_grid.Prelude.{true, ℕ, ◌+◌, String, ◌≡◌, ◌≢◌, ◌↔◌, refl, false, some, arith, ◌==◌, eq_iff}
use forge_grid.Dict.{lookup, values}
use forge_grid.Dict.Keys.{IsDistinct}
use forge_grid.Bridge.Models.{Time}
use forge_grid.Network.{Pki}
use forge_grid.Coordinator.Models.{Job}
use forge_grid.Coordinator.Requests.{Libraries, job_list}
use forge_grid.Coordinator.Jobs.{pending_jobs, handle_list_jobs}
use forge_grid.Coordinator.Jobs.Offer.{IsOffer, pending_jobs_iff}
use forge_grid.Coordinator.Server.{Context, Randomness, route_of, handle, serve}
use forge_grid.Worker.{Worker, Net, WorkerJson}
use forge_grid.Worker.Poll.{poll_loop, poll_call, jobs_of, poll_jobs}
use forge_grid.Worker.Poll.Started.{IsIdle, poll_loop-same, mem-poll_loop}
use forge_grid.Worker.Deployment.{
  is_plain, Listener, ReplyJson, answer_of, Agree, Served, coordinator_net,
}
use forge_grid.Worker.Deployment.Known.{trim-bearer, IsKnown, known-authorized}

module _ {D Key : Type 0} (libs : Libraries D) (context : Context) (replies : ReplyJson)
    (pki : Pki Key) (listener : Listener) (json : WorkerJson) (agree : Agree libs json replies)
    (random : ℕ → Randomness) (clock : ℕ → Time) where
  abbrev net : Net (Served D)
  net = coordinator_net libs context replies pki listener random clock

  -- What a poll of a known worker does.
  poll_jobs-served :
      (w : Worker) (s : Served D)
      → w.worker_id ≢ ""
      → is_plain w.worker_id ≡ true
      → IsKnown libs pki listener w.worker_id w s.store
      → (text : String)
      → replies.marshal_payload (job_list (pending_jobs w.worker_id (values s.store.jobs)))
        ≡ some text
      → poll_jobs net json w s ≡ (
          let jobs = pending_jobs w.worker_id (values s.store.jobs) in
          (
            record { store = s.store; calls = s.calls + 1 },
            (poll_loop jobs w).0,
            (poll_loop jobs w).1,
          ))
  unfolding poll_jobs poll_call coordinator_net serve route_of handle handle_list_jobs answer_of
      jobs_of
  poll_jobs-served w s named fine known text marshalled =
      let filled : (w.worker_id == "") ≡ false = ground (arith, named, eq_iff w.worker_id "") in
      rw (listener.parse_query w.worker_id fine, coordinator_net)
        (rw known.reached (
          rw filled (
            rw (trim-bearer w.token) (
              rw (known-authorized libs pki listener w.worker_id w s.store known, handle_list_jobs)
                (rw (marshalled, agree.jobs_read _ text marshalled) refl)))))

  -- A worker that polls a coordinator that knows it and that its client reaches changes nothing at the
  -- coordinator but the count of calls, cancels none of its jobs, and starts exactly the stored jobs
  -- that are assigned to it and pending and that it does not run already, if its id
  -- has letters, digits and dashes only and the reply is marshalled.
  pub poll_jobs_exact :
      (w : Worker) (s : Served D)
      → w.worker_id ≢ ""
      → is_plain w.worker_id ≡ true
      → IsKnown libs pki listener w.worker_id w s.store
      → IsDistinct s.store.jobs
      → (text : String)
      → replies.marshal_payload (job_list (pending_jobs w.worker_id (values s.store.jobs)))
        ≡ some text
      → ((poll_jobs net json w s).0.store ≡ s.store)
        × ((poll_jobs net json w s).1 ≡ w)
        × ((j : Job)
            → Memᴰ j (poll_jobs net json w s).2 ↔ (
                (((id : String) × (lookup id s.store.jobs ≡ some j)) × IsOffer w.worker_id j)
                × IsIdle w j))
  poll_jobs_exact w s named fine known distinct text marshalled =
      let served = poll_jobs-served w s named fine known text marshalled in
      let offers = λ (j : Job). pending_jobs_iff w.worker_id s.store.jobs j distinct in
      let waiting = λ (j : Job) (m : Memᴰ j (pending_jobs w.worker_id (values s.store.jobs))).
        ((offers j).0 m).1.waiting in
      rw served (
        refl,
        poll_loop-same (pending_jobs w.worker_id (values s.store.jobs)) w waiting,
        λ j.
            let inner =
              mem-poll_loop (pending_jobs w.worker_id (values s.store.jobs)) w j waiting in
            (
              λ m. let p = inner.0 m in ((offers j).0 p.0, p.1),
              λ p. inner.1 ((offers j).1 p.0, p.1),
            ),
      )
