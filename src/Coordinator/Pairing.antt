-- ===== src/Coordinator/Pairing.antt =====
-- internal/coordinator/handlers.go: `handleGenerateCode` and `handlePair`.
pub mod Once
use Prim.Native.String.{◌++◌}
use forge_grid.Bootstrap.Bytes.{byte_len}
use forge_grid.Prelude.{
  digit, ℕ, ◌+◌, ◌*◌, ◌/◌, ◌%◌, ◌^◌, String, Bool, true, false, not, ◌||◌, ◌==◌, ltb, List, [], ◌∷◌,
  get_or, get_elem?, zero, suc, if◌then◌else◌,
}
use forge_grid.Dict.{insert}
use forge_grid.Bridge.Models.{Time}
use forge_grid.Coordinator.Models.{WorkerState, CoordinatorState}
use forge_grid.Coordinator.Store.{Store, save}
use forge_grid.Coordinator.Requests.{
  Request, Reply, success, write_error, PairRequest, Parsed, unparsed, parsed, Libraries,
  pairing_code, paired,
}

-- 5 * time.Minute
abbrev pub code_lifetime : Time
code_lifetime = 5 * 60 * 10 ^ 9

-- The last decimal digits of a number, as many as the first argument says.
unfoldable pub padded : ℕ → ℕ → String
padded zero n = ""
padded (suc k) n = padded k (n / 10) ++ digit (n % 10)

-- The four bytes that rand.Read returned.
unfoldable pub generate_pairing_code : ℕ → ℕ → ℕ → ℕ → String
unfolding padded
generate_pairing_code b0 b1 b2 b3 =
    let val = (b0 * 2 ^ 24 + b1 * 2 ^ 16 + b2 * 2 ^ 8 + b3) % 2 ^ 31 in padded 6 (val % 1000000)

unfoldable pub new_worker : String → String → PairRequest → Time → WorkerState
new_worker id token_hash req now = record {
  id = id;
  node_name = req.node_name;
  os = req.os;
  os_version = req.os_version;
  cpu_model = req.cpu_model;
  architecture = req.architecture;
  physical_cores = req.physical_cores;
  logical_processors = req.logical_processors;
  total_ram = req.total_ram;
  available_ram = req.available_ram;
  free_workspace_disk = req.free_workspace_disk;
  last_seen = now;
  token_hash = token_hash;
  status = "online";
}

-- The code is missing, another one or expired.
unfoldable pub is_refused : PairRequest → Time → CoordinatorState → Bool
is_refused req now cfg =
    cfg.pairing_code == "" || (not (cfg.pairing_code == req.code) || ltb cfg.pairing_expiry now)

module _ {D : Type 0} (libs : Libraries D) where
  open libs use {os, store_json, request_json, sha256_hex}

  unfoldable pub handle_generate_code : String → Request → Time → Store D → Store D × Reply
  handle_generate_code code r now s =
      if not (r.method == "POST")
      then (s, write_error 405 "METHOD_NOT_ALLOWED" "Method not allowed" "")
      else (
        save os store_json (record s {
          config = record s.config {
            pairing_code = code;
            pairing_expiry = now + code_lifetime;
            pairing_failures = 0;
          };
        }),
        success (pairing_code code),
      )

  -- The two random texts are those of the token and of the worker's id.
  unfoldable pub pair : String → String → PairRequest → Time → Store D → Store D × Reply
  unfolding is_refused new_worker
  pair token random_id req now s =
      if req.node_name == "" || ltb 64 (byte_len req.node_name)
      then (s, write_error 400 "INVALID_NODE_NAME" "Node name is invalid or too long" "")
      else if ltb 5 s.config.pairing_failures
      then (
        s,
        write_error 429 "RATE_LIMIT" "Too many failed pairing attempts" "Generate a new code",
      )
      else if is_refused req now s.config
      then (
        save os store_json (record s {
          config = record s.config { pairing_failures = s.config.pairing_failures + 1 };
        }),
        write_error 401 "UNAUTHORIZED" "Invalid or expired pairing code" "",
      )
      else (
        save os store_json (record s {
          config = record s.config { pairing_code = ""; pairing_failures = 0 };
          workers =
              insert ("worker-" ++ random_id)
                (new_worker ("worker-" ++ random_id) (sha256_hex token) req now) s.workers;
        }),
        success (paired ("worker-" ++ random_id) token),
      )

  unfoldable pub pair_parsed :
      String → String → Parsed PairRequest → Time → Store D → Store D × Reply
  pair_parsed token random_id (unparsed text) now s =
      (s, write_error 400 "BAD_REQUEST" "Malformed JSON" text)
  pair_parsed token random_id (parsed req) now s = pair token random_id req now s

  unfoldable pub handle_pair : String → String → Request → Time → Store D → Store D × Reply
  unfolding pair_parsed
  handle_pair token random_id r now s =
      pair_parsed token random_id (request_json.decode_pair 4096 r.body) now s
