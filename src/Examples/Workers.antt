-- ===== src/Examples/Workers.antt =====
-- A worker that pairs, starts again, is offered a job and runs it.
use mathlib.Core.List.{Memᴰ}
use Prim.Native.String.{◌++◌}
use text.Mathlib.TextLemmas.{nil-append, cons-append}
use forge_grid.Prelude.{
  Bool, ◌&&◌, ◌||◌, code, nat_eq, subst, Option, sym, ap, ◌∙◌, ◌==◌, Option-cases, inl, inr,
  false≢true, cut_prefix_sound, cut_prefix-append, pos, ◌≡◌, ◌↔◌, refl, String, true, false, none,
  some, [], ◌∷◌, arith, eq_iff, decimal, cut_at, cut_prefix,
}
use forge_grid.Bootstrap.Bytes.{byte_len, utf8, encode_rune}
use forge_grid.Dict.{lookup, insert, delete, values}
use forge_grid.Disk.Atomic.{atomic_write}
use forge_grid.Disk.Memory.{Memory, memory}
use forge_grid.Network.{verify_connection}
use forge_grid.Coordinator.Models.{Job}
use forge_grid.Coordinator.Pairing
use forge_grid.Coordinator.Jobs.{pending_jobs}
use forge_grid.Coordinator.Jobs.Offer.{IsOffer}
use forge_grid.Coordinator.Server.{serve, route_of, handle}
use forge_grid.Worker.{Worker, Net, setup_client, pinned}
use forge_grid.Worker.Hardware.{Machine, get_hardware_info}
use forge_grid.Worker.Pair.{
  aimed, coordinator_url_of, pair_request, pair_call, take_answer, keep_credentials, credentials_of,
  pair,
}
use forge_grid.Worker.Start.{WorkerFlags, runs, start_worker}
use forge_grid.Worker.Poll.{poll_jobs}
use forge_grid.Worker.Poll.Started.{IsIdle}
use forge_grid.Worker.Execute.{
  Site, start_logs, test_report, report_of, attempt_of, register, running_update, final_update,
  execute_job,
}
use forge_grid.Worker.Deployment.{
  plain_code, is_plain, is_path, Listener, tls_port, reaches, answer_of, Served, coordinator_net,
}
use forge_grid.Worker.Deployment.Known.{IsKnown}
use forge_grid.Worker.Deployment.Polled.{poll_jobs_exact}
use forge_grid.Worker.Deployment.Restarted.{pair_then_start}
use forge_grid.Worker.Deployment.Tested.{execute_job_verified}
use forge_grid.Execution.{missing}
use forge_grid.Examples.Coordinators.{rig, store}
use forge_grid.Examples.Deployments.{libs, json, replies, agree, offer}
use forge_grid.Examples.Dispatches.{context, random}
use forge_grid.Examples.Startup.{pki, plain_paths}

abbrev machine : Machine
machine = record {
  goos = "linux";
  goarch = "amd64";
  host_info = some ("6", "linux");
  cpu_models = some ("x" ∷ []);
  cores = some (pos 4);
  processors = some (pos 8);
  memory = some (16, 8);
  disk_free = some 100;
}

-- What stands behind the query's name, if the target has it, and any other target as a path.
abbrev parse : String → Option (String × String)
parse target = elim (cut_prefix "/api/jobs?worker_id=" target) [
  | some id ↦ some ("/api/jobs", id)
  | none ↦ some (target, "")
]

parse_query : (id : String) → parse ("/api/jobs?worker_id=" ++ id) ≡ some ("/api/jobs", id)
parse_query id = rw (cut_prefix-append "/api/jobs?worker_id=" id, parse) refl

widened :
    (plain other rest path : Bool)
    → (plain && rest) ≡ true
    → (rest ≡ true → path ≡ true)
    → ((plain || other) && path) ≡ true
widened false other rest path h f = absurd (false≢true h)
widened true other rest path h f = f h

kept :
    (first rest path : Bool)
    → (first && rest) ≡ true
    → (rest ≡ true → path ≡ true)
    → (first && path) ≡ true
kept false rest path h f = absurd (false≢true h)
kept true rest path h f = f h

is_path_of_plain : (id : String) → is_plain id ≡ true → is_path id ≡ true
is_path_of_plain String.[] h = refl
is_path_of_plain (String.◌∷◌ c s) h =
    widened (plain_code (code c)) (nat_eq (code c) b'/') (is_plain s) (is_path s) h
      (is_path_of_plain s)

path_of_append : (p id : String) → is_path p ≡ true → is_plain id ≡ true → is_path (p ++ id) ≡ true
path_of_append String.[] id g h =
    subst (λ s. is_path s ≡ true) (sym (nil-append id)) (is_path_of_plain id h)
path_of_append (String.◌∷◌ c p) id g h =
    subst (λ s. is_path s ≡ true) (sym (cons-append c p id))
      (kept (plain_code (code c) || nat_eq (code c) b'/') (is_path p) (is_path (p ++ id)) g
        (λ e. path_of_append p id e h))

broken :
    (first rest path : Bool)
    → (first && rest) ≡ false
    → (rest ≡ false → path ≡ false)
    → (first && path) ≡ false
broken false rest path h f = refl
broken true rest path h f = f h

-- What is no path stays none with more behind it.
not_path-append : (p id : String) → is_path p ≡ false → is_path (p ++ id) ≡ false
not_path-append String.[] id h = absurd (false≢true (sym h))
not_path-append (String.◌∷◌ c p) id h =
    subst (λ s. is_path s ≡ false) (sym (cons-append c p id))
      (broken (plain_code (code c) || nat_eq (code c) b'/') (is_path p) (is_path (p ++ id)) h
        (not_path-append p id))

path-no_query :
    (target : String) → is_path target ≡ true → cut_prefix "/api/jobs?worker_id=" target ≡ none
path-no_query target h = elim (Option-cases (cut_prefix "/api/jobs?worker_id=" target)) [
  | inl missed ↦ missed
  | inr (id, found) ↦
      let same = cut_prefix_sound "/api/jobs?worker_id=" target id found in
      absurd (
        false≢true
          (sym (not_path-append "/api/jobs?worker_id=" id refl) ∙ sym (ap is_path same) ∙ h))
]

parse_plain :
    (dir id : String)
    → is_path dir ≡ true
    → is_plain id ≡ true
    → parse (dir ++ id) ≡ some (dir ++ id, "")
parse_plain dir id g h = rw (path-no_query (dir ++ id) (path_of_append dir id g h), parse) refl

abbrev listener : Listener
listener = record {
  port = tls_port ((1 ∷ []) ∷ []);
  hosts = λ base. base == "https://10.0.0.9:8080";
  parse = parse;
  parse_plain = parse_plain;
  parse_query = λ id h. parse_query id;
}

abbrev new : Worker
new = record {
  coordinator_url = "";
  worker_id = "";
  token = "";
  node_name = "rig";
  client = pinned "f";
  workspace = "./w";
  insecure = false;
  fingerprint = "f";
  active_jobs = [];
  contexts = 0;
  cancelled = [];
}

abbrev known : Worker
known = record new { coordinator_url = "https://10.0.0.9:8080"; worker_id = "w1"; token = "token" }

abbrev served : Served Memory
served = record { store = store; calls = 0 }

abbrev offering : Served Memory
offering = record { store = record store { jobs = ("job-9", offer) ∷ [] }; calls = 0 }

abbrev net : Net (Served Memory)
net = coordinator_net libs context replies pki listener (λ n. random) (λ n. 6)

abbrev flags : WorkerFlags
flags = record { node_name = ""; coordinator = ""; code = ""; insecure = true; fingerprint = "" }

abbrev drive : Memory
drive = record { files = []; budget = 9 }

pair_then_start_example :
    let (s', _, d', _) =
      pair net memory json "c.json" "10.0.0.9" "123456" "f" machine new served drive in
    (v : Worker) × (start_worker net memory json "c.json" flags machine s' d' ≡ (s', d', runs v))
    × IsKnown libs pki listener v.worker_id v s'.store
unfolding pair aimed coordinator_url_of setup_client pair_call pair_request get_hardware_info
    take_answer keep_credentials credentials_of coordinator_net reaches verify_connection answer_of
    serve route_of handle Pairing.handle_pair cut_at cut_prefix Pairing.pair Pairing.is_refused
    byte_len utf8 encode_rune atomic_write insert delete lookup
pair_then_start_example =
    pair_then_start libs context replies pki listener json agree (λ n. random) (λ n. 6) memory
      "c.json" "10.0.0.9" "123456" "f" machine machine flags new served drive "c" refl refl refl

known-IsKnown : IsKnown libs pki listener "w1" known offering.store
unfolding lookup reaches verify_connection
known-IsKnown = record { holder = rig; registered = refl; own_token = refl; reached = refl }

poll_jobs_exact_example :
    ((poll_jobs net json known offering).0.store ≡ offering.store)
    × ((poll_jobs net json known offering).1 ≡ known)
    × ((j : Job)
        → Memᴰ j (poll_jobs net json known offering).2 ↔ (
            (((id : String) × (lookup id offering.store.jobs ≡ some j)) × IsOffer "w1" j)
            × IsIdle known j))
unfolding pending_jobs values lookup
poll_jobs_exact_example =
    poll_jobs_exact libs context replies pki listener json agree (λ n. random) (λ n. 6) known
      offering (λ e. ground (arith, e, eq_iff "w1" "")) refl known-IsKnown (refl, tt) "j" refl

abbrev site : Site
site = record {
  machine = machine;
  look_path = λ name. missing "";
  paths = plain_paths;
  launch = λ p args env dir. record {
    start_error = none;
    lines = [];
    exit_code = pos 0;
    wait_error = none;
  };
  pid = 7;
  deadline_passed = λ t. false;
  context_cancelled = false;
  abs_text = "";
  sha256_hex = λ s. s;
}

execute_job_verified_example :
    (done : Job) × (lookup "job-9" (execute_job net json site 8 offer known offering).0.store.jobs
      ≡ some done)
    × (done.status ≡ "completed")
    × (done.result ≡ "success")
unfolding byte_len utf8 encode_rune lookup attempt_of register running_update final_update
    start_logs get_hardware_info report_of test_report decimal
execute_job_verified_example =
    execute_job_verified libs context replies pki listener json agree (λ n. random) (λ n. 6) "9"
      site 8 offer known offering refl refl refl refl refl known-IsKnown (λ text. refl)
      (λ e. ground (arith, e, eq_iff "secret" ""))
      (record { text = "s"; marshalled = refl; fits = omega arith })
      (record { text = "f"; marshalled = refl; fits = omega arith })
