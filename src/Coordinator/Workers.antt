-- ===== src/Coordinator/Workers.antt =====
-- The workers: `handleHeartbeat` and `handleListWorkers` of internal/coordinator/handlers.go and
-- `checkWorkerStatus` of internal/coordinator/coordinator.go.
pub mod Liveness
use forge_grid.Prelude.{
  ℕ, ◌-◌, ◌*◌, ◌^◌, String, Bool, true, false, not, ◌&&◌, ◌||◌, ◌==◌, Option, none, some, List, [],
  ◌∷◌, ltb, map, if◌then◌else◌,
}
use forge_grid.Dict.{Dict, lookup, insert, values}
use forge_grid.Bridge.Models.{Time}
use forge_grid.Coordinator.Models.{WorkerState, to_dto}
use forge_grid.Coordinator.Store.{Store, save}
use forge_grid.Coordinator.Requests.{
  Request, Reply, success, write_error, Heartbeat, Parsed, unparsed, parsed, Libraries, token_of,
  empty, worker_list,
}

abbrev pub unauthorized : Reply
unauthorized = write_error 401 "UNAUTHORIZED" "Unauthorized" ""

-- The worker with that id, if its token is the given one.
unfoldable pub authorized :
    (String → String) → String → String → Dict WorkerState → Option WorkerState
authorized sha256_hex id token workers = elim (lookup id workers) [
  | none ↦ none
  | some w ↦ if w.token_hash == sha256_hex token then some w else none
]

unfoldable pub beat : Heartbeat → Time → WorkerState → WorkerState
beat req now w = record w {
  available_ram = req.available_ram;
  free_workspace_disk = req.free_workspace_disk;
  last_seen = now;
  status = "online";
}

-- 15 * time.Second
abbrev pub silence : Time
silence = 15 * 10 ^ 9

-- One worker in the loop of checkWorkerStatus, and whether it changed.
unfoldable pub is_stale : Time → WorkerState → Bool
is_stale now w = w.status == "online" && ltb silence (now - w.last_seen)

unfoldable pub mark_stale : Time → Dict WorkerState → Dict WorkerState × Bool
unfolding is_stale
mark_stale now [] = ([], false)
mark_stale now ((id, w) ∷ workers) =
    let (rest, changed) = mark_stale now workers in
    if is_stale now w
    then ((id, record w { status = "offline" }) ∷ rest, true)
    else ((id, w) ∷ rest, changed)

module _ {D : Type 0} (libs : Libraries D) where
  open libs use {os, store_json, request_json, sha256_hex}

  unfoldable pub heartbeat : String → Heartbeat → Time → Store D → Store D × Reply
  unfolding authorized beat
  heartbeat token req now s = elim (authorized sha256_hex req.worker_id token s.workers) [
    | none ↦ (s, unauthorized)
    | some w ↦ (
      save os store_json (record s { workers = insert req.worker_id (beat req now w) s.workers }),
      success empty,
    )
  ]

  unfoldable pub heartbeat_parsed : String → Parsed Heartbeat → Time → Store D → Store D × Reply
  heartbeat_parsed token (unparsed text) now s =
      (s, write_error 400 "BAD_REQUEST" "Malformed JSON" "")
  heartbeat_parsed token (parsed req) now s = heartbeat token req now s

  unfoldable pub handle_heartbeat : Request → Time → Store D → Store D × Reply
  unfolding heartbeat_parsed
  handle_heartbeat r now s =
      heartbeat_parsed (token_of r) (request_json.decode_heartbeat 4096 r.body) now s

  unfoldable pub handle_list_workers : Store D → Store D × Reply
  unfolding to_dto
  handle_list_workers s = (s, success (worker_list (map to_dto (values s.workers))))

  -- One round of checkWorkerStatus.
  unfoldable pub check_worker_status : Time → Store D → Store D
  unfolding mark_stale
  check_worker_status now s =
      let (workers, changed) = mark_stale now s.workers in
      let s' = record s { workers = workers } in if changed then save os store_json s' else s'
