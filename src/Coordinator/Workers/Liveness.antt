-- ===== src/Coordinator/Workers/Liveness.antt =====
-- Who can change a worker: its own heartbeat, and the rounds of `checkWorkerStatus`.
use forge_grid.Prelude.{
  ◌+◌, ◌≤◌, String, ◌≡◌, ◌≢◌, refl, sym, ap, ◌∙◌, inl, inr, ◌↔◌, Option, none, some, [], ◌∷◌, arith,
  ◌==◌, eq_iff, Bool-cases, Option-cases, if◌then◌else◌, none-ne-some, subst,
}
use forge_grid.Dict.{Dict, lookup, lookup-insert}
use forge_grid.Bridge.Models.{Time}
use forge_grid.Coordinator.Models.{WorkerState}
use forge_grid.Coordinator.Store.{Store, save}
use forge_grid.Coordinator.Requests.{Heartbeat, Libraries, success, empty, write_error}
use forge_grid.Coordinator.Workers.{
  authorized, beat, heartbeat, silence, is_stale, mark_stale, check_worker_status,
}

-- A worker after a round: offline if it was silent for too long, else as it was.
abbrev pub aged : Time → Option WorkerState → Option WorkerState
aged now none = none
aged now (some w) = some (if is_stale now w then record w { status = "offline" } else w)

lookup-mark_stale :
    (now : Time) (ws : Dict WorkerState) (id : String)
    → lookup id (mark_stale now ws).0 ≡ aged now (lookup id ws)
unfolding mark_stale lookup
lookup-mark_stale now [] id = refl
lookup-mark_stale now ((k, w) ∷ ws) id =
    let rest = lookup-mark_stale now ws id in
    elim (Bool-cases (is_stale now w)) [
      | inl stale ↦ elim (Bool-cases (k == id)) [
        | inl here ↦ rw (stale, here) (rw stale refl)
        | inr other ↦ rw (stale, other) rest
      ]
      | inr fresh ↦ elim (Bool-cases (k == id)) [
        | inl here ↦ rw (fresh, here) (rw fresh refl)
        | inr other ↦ rw (fresh, other) rest
      ]
    ]

module _ {D : Type 0} (libs : Libraries D) where
  open libs use {os, store_json, sha256_hex}

  -- A round of checkWorkerStatus leaves each worker as it was, except that one which was online and
  -- has not been heard of for more than 15 seconds is offline.
  pub check_worker_status_exact :
      (now : Time) (s : Store D) (id : String)
      → lookup id (check_worker_status libs now s).workers ≡ aged now (lookup id s.workers)
  unfolding check_worker_status save
  check_worker_status_exact now s id = ground (arith, lookup-mark_stale now s.workers id)

  -- After a round, a worker that is online was heard of in the last 15 seconds.
  pub check_worker_status_fresh :
      (now : Time) (s : Store D) (id : String) (w : WorkerState)
      → lookup id (check_worker_status libs now s).workers ≡ some w
      → w.status ≡ "online"
      → now ≤ w.last_seen + silence
  unfolding is_stale
  check_worker_status_fresh now s id w found online =
      go (lookup id s.workers) (sym (check_worker_status_exact now s id) ∙ found)
    where
      go : (o : Option WorkerState) → aged now o ≡ some w → now ≤ w.last_seen + silence
      go none e = absurd (none-ne-some (sym e))
      go (some v) e = elim (Bool-cases (is_stale now v)) [
        | inl stale ↦
            let gone : record v { status = "offline" } ≡ w = ground arith in
            absurd (
              ground
                (arith, eq_iff "offline" "online", ap (λ (u : WorkerState). u.status) gone, online))
        | inr fresh ↦
            let same : v ≡ w = ground arith in
            let was_online : v.status ≡ "online" =
              ap (λ (u : WorkerState). u.status) same ∙ online in
            subst (λ (u : WorkerState). now ≤ u.last_seen + silence) same
              (ground (arith, eq_iff v.status "online", was_online, fresh))
      ]

  -- A heartbeat is accepted exactly when it names a known worker and shows the token of that worker.
  pub heartbeat_iff :
      (token : String) (req : Heartbeat) (now : Time) (s : Store D)
      → ((heartbeat libs token req now s).1 ≡ success empty) ↔ (
          (w : WorkerState) × (lookup req.worker_id s.workers ≡ some w)
          × (w.token_hash ≡ sha256_hex token))
  unfolding heartbeat authorized write_error
  heartbeat_iff token req now s = (
    λ h. elim (Option-cases (lookup req.worker_id s.workers)) [
      | inl missing ↦ absurd (ground (arith, missing, h))
      | inr (w, found) ↦
          (w, found, ground (arith, found, h, eq_iff w.token_hash (sha256_hex token)))
    ],
    λ (w, found, shown). ground (arith, found, shown, eq_iff w.token_hash (sha256_hex token)),
  )

  -- A heartbeat changes no other worker, whether it is accepted or not.
  pub heartbeat_other :
      (token : String) (req : Heartbeat) (now : Time) (s : Store D) (id : String)
      → req.worker_id ≢ id
      → lookup id (heartbeat libs token req now s).0.workers ≡ lookup id s.workers
  unfolding heartbeat save
  heartbeat_other token req now s id n =
      elim (Option-cases (authorized sha256_hex req.worker_id token s.workers)) [
        | inl refused ↦ rw (refused, heartbeat) refl
        | inr (w, allowed) ↦
            rw (allowed, heartbeat)
              (ground (
                arith,
                n,
                eq_iff req.worker_id id,
                lookup-insert req.worker_id id (beat req now w) s.workers,
              ))
      ]
