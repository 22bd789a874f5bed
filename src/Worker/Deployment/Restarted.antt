-- ===== src/Worker/Deployment/Restarted.antt =====
-- A worker that has paired, is stopped, and starts again.
use forge_grid.Prelude.{ℕ, String, ◌≡◌, refl, sym, ap, ◌∙◌, true, some}
use forge_grid.Disk.{FileSystem}
use forge_grid.Disk.Atomic.{atomic_write}
use forge_grid.Dict.{lookup}
use forge_grid.Bridge.Models.{Time}
use forge_grid.Network.{Pki}
use forge_grid.Coordinator.Store.{Store}
use forge_grid.Coordinator.Requests.{Libraries}
use forge_grid.Coordinator.Server.{Context, Randomness}
use forge_grid.Worker.{Worker, Net, WorkerJson, new_worker}
use forge_grid.Worker.Hardware.{Machine}
use forge_grid.Worker.Pair.{is_paired, credentials_of, pair}
use forge_grid.Worker.Pair.Stored.{IsSameLink, pair_then_load}
use forge_grid.Worker.Start.{WorkerFlags, runs, start_worker}
use forge_grid.Worker.Deployment.{Listener, reaches, ReplyJson, Agree, Served, coordinator_net}
use forge_grid.Worker.Deployment.Known.{IsKnown}
use forge_grid.Worker.Deployment.Paired.{pair-IsKnown}

module _ {D Key E : Type 0} (libs : Libraries D) (context : Context) (replies : ReplyJson)
    (pki : Pki Key) (listener : Listener) (json : WorkerJson) (agree : Agree libs json replies)
    (random : ℕ → Randomness) (clock : ℕ → Time) (files : FileSystem E) where
  abbrev net : Net (Served D)
  net = coordinator_net libs context replies pki listener random clock

  IsKnown-of_link :
      (v w : Worker) (s : Store D)
      → IsSameLink v w
      → IsKnown libs pki listener w.worker_id w s
      → IsKnown libs pki listener v.worker_id v s
  IsKnown-of_link v w s link known = record {
    holder = known.holder;
    registered = ap (λ (id : String). lookup id s.workers) link.same_id ∙ known.registered;
    own_token = known.own_token ∙ ap libs.sha256_hex (sym link.same_token);
    reached =
        ap (λ (base : String). reaches pki listener base v.client) link.same_url
        ∙ ap (reaches pki listener w.coordinator_url) link.same_client
        ∙ known.reached;
  }

  -- If a worker has paired and its credentials were marshalled and written, then the worker that is
  -- started next on that disk, with whatever flags, runs without a call and without pairing again, and
  -- the coordinator knows it: its URL and its client reach the coordinator, which has its id with the
  -- hash of its token.
  pub pair_then_start :
      (path ip code fingerprint : String) (machine later : Machine) (flags : WorkerFlags)
      (w : Worker) (s : Served D) (d : E) (text : String)
      → (pair net files json path ip code fingerprint machine w s d).3 ≡ is_paired
      → json.marshal_credentials
          (credentials_of (pair net files json path ip code fingerprint machine w s d).1)
        ≡ some text
      → (atomic_write files path text d).1 ≡ true
      → let (s', _, d', _) = pair net files json path ip code fingerprint machine w s d in
        (v : Worker) × (start_worker net files json path flags later s' d' ≡ (s', d', runs v))
        × IsKnown libs pki listener v.worker_id v s'.store
  unfolding start_worker
  pair_then_start path ip code fingerprint machine later flags w s d text done marshalled written =
      let w' = (pair net files json path ip code fingerprint machine w s d).1 in
      let s' = (pair net files json path ip code fingerprint machine w s d).0 in
      let fresh = new_worker flags.node_name "./forgegrid-workspace" flags.insecure in
      let (v, loaded, link) =
        pair_then_load net files json path ip code fingerprint machine w fresh s d done text
          marshalled written in
      let known =
        pair-IsKnown libs context replies pki listener json agree random clock files path ip code
          fingerprint machine w s d done in
      (v, rw (loaded, start_worker) refl, IsKnown-of_link v w' s'.store link known)
