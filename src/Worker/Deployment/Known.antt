-- ===== src/Worker/Deployment/Known.antt =====
-- A worker that the coordinator knows.
use Prim.Native.String.{◌++◌}
use forge_grid.Prelude.{String, ◌≡◌, true, some, arith, eq_iff, trim_prefix, cut_prefix-append}
use forge_grid.Dict.{lookup}
use forge_grid.Network.{Pki}
use forge_grid.Coordinator.Models.{WorkerState}
use forge_grid.Coordinator.Store.{Store}
use forge_grid.Coordinator.Requests.{Libraries}
use forge_grid.Coordinator.Workers.{authorized}
use forge_grid.Worker.{Worker}
use forge_grid.Worker.Deployment.{Listener, reaches}

pub trim-bearer : (token : String) → trim_prefix "Bearer " ("Bearer " ++ token) ≡ token
unfolding trim_prefix
trim-bearer token = ground (arith, cut_prefix-append "Bearer " token)

-- A worker that the coordinator knows under an id, and whose URL and client reach the coordinator.
pub record IsKnown {D Key : Type 0} (libs : Libraries D) (pki : Pki Key) (listener : Listener)
    (id : String) (w : Worker) (s : Store D) : Type 0 where
  pub holder : WorkerState
  pub registered : lookup id s.workers ≡ some holder
  pub own_token : holder.token_hash ≡ libs.sha256_hex w.token
  pub reached : reaches pki listener w.coordinator_url w.client ≡ true

module _ {D Key : Type 0} (libs : Libraries D) (pki : Pki Key) (listener : Listener) where
  open libs use {sha256_hex}

  pub known-authorized :
      (id : String) (w : Worker) (s : Store D) (known : IsKnown libs pki listener id w s)
      → authorized sha256_hex id w.token s.workers ≡ some known.holder
  unfolding authorized
  known-authorized id w s known = ground (
    arith,
    known.registered,
    known.own_token,
    eq_iff known.holder.token_hash (sha256_hex w.token),
  )
