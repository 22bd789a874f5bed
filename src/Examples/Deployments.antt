-- ===== src/Examples/Deployments.antt =====
-- A coordinator and a worker that agree on their JSON: each side marshals the few values of the
-- examples, and fails on any other.
use forge_grid.Prelude.{
  ℕ, ℤ, pos, negsuc, ◌≡◌, refl, sym, ap, ◌∙◌, String, Bool, true, false, Option, none, some, List,
  [], ◌∷◌, arith, eq_iff, ◌==◌, ◌&&◌, nat_eq, Bool-cases, inl, inr, if◌then◌else◌,
}
use forge_grid.Dict.{Dict}
use forge_grid.Disk.Memory.{Memory}
use forge_grid.Coordinator.Models.{Job}
use forge_grid.Coordinator.Requests.{
  PairRequest, Heartbeat, JobUpdate, parsed, Libraries, Payload, paired, job_list,
}
use forge_grid.Worker.{WorkerJson, WorkerCredentials}
use forge_grid.Worker.Deployment.{ReplyJson, Agree}
use forge_grid.Examples.Coordinators
use forge_grid.Examples.Coordinators.{enrolment, trial}

abbrev pub same_int : ℤ → ℤ → Bool
same_int (pos m) (pos n) = nat_eq m n
same_int (pos _) (negsuc _) = false
same_int (negsuc _) (pos _) = false
same_int (negsuc m) (negsuc n) = nat_eq m n

pub same_int_sound : (m n : ℤ) → same_int m n ≡ true → m ≡ n
same_int_sound (pos m) (pos n) h = ground (arith, h)
same_int_sound (pos _) (negsuc _) h = absurd (ground (arith, h))
same_int_sound (negsuc _) (pos _) h = absurd (ground (arith, h))
same_int_sound (negsuc m) (negsuc n) h = ground (arith, h)

abbrev pub same_lines : List String → List String → Bool
same_lines [] [] = true
same_lines [] (_ ∷ _) = false
same_lines (_ ∷ _) [] = false
same_lines (s ∷ ss) (t ∷ ts) = s == t && same_lines ss ts

pub same_lines_sound : (ss ts : List String) → same_lines ss ts ≡ true → ss ≡ ts
same_lines_sound [] [] h = refl
same_lines_sound [] (_ ∷ _) h = absurd (ground (arith, h))
same_lines_sound (_ ∷ _) [] h = absurd (ground (arith, h))
same_lines_sound (s ∷ ss) (t ∷ ts) h =
    let heads : s ≡ t = ground (arith, h, eq_iff s t) in
    let tails = same_lines_sound ss ts (ground (arith, h)) in λ i. heads i ∷ tails i

-- The request to pair, up to its code.
abbrev pub is_enrolment : PairRequest → Bool
is_enrolment r =
    r.node_name == "rig"
    && (r.os == "linux"
        && (r.os_version == "6"
            && (r.cpu_model == "x"
                && (r.architecture == "amd64"
                    && (same_int r.physical_cores (pos 4)
                        && (same_int r.logical_processors (pos 8)
                            && (nat_eq r.total_ram 16
                                && (nat_eq r.available_ram 8
                                    && nat_eq r.free_workspace_disk 100))))))))

pub is_enrolment_sound :
    (r : PairRequest) → is_enrolment r ≡ true → record enrolment { code = r.code } ≡ r
is_enrolment_sound r h = ground (
  arith,
  h,
  eq_iff r.node_name "rig",
  eq_iff r.os "linux",
  eq_iff r.os_version "6",
  eq_iff r.cpu_model "x",
  eq_iff r.architecture "amd64",
  same_int_sound r.physical_cores (pos 4),
  same_int_sound r.logical_processors (pos 8),
)

abbrev pub same_update : JobUpdate → JobUpdate → Bool
same_update u v =
    u.attempt_id == v.attempt_id
    && (u.status == v.status && (u.result == v.result && same_lines u.logs v.logs))

pub same_update_sound : (u v : JobUpdate) → same_update u v ≡ true → u ≡ v
same_update_sound u v h = ground (
  arith,
  h,
  eq_iff u.attempt_id v.attempt_id,
  eq_iff u.status v.status,
  eq_iff u.result v.result,
  same_lines_sound u.logs v.logs,
)

abbrev pub starting : JobUpdate
starting = record {
  attempt_id = "a1";
  status = "running";
  result = "";
  logs = "Job started on rig (ID: w1)" ∷ "OS: linux | CPU: x" ∷ "PID: 7" ∷ [];
}

abbrev pub finished : JobUpdate
finished = record {
  attempt_id = "a1";
  status = "completed";
  result = "secret";
  logs = "Received challenge: secret" ∷ "Calculated SHA-256: secret" ∷ [];
}

abbrev pub marshal_update : JobUpdate → Option String
marshal_update u =
    if same_update starting u then some "s" else if same_update finished u then some "f" else none

abbrev pub decode_update : String → JobUpdate
decode_update text = if text == "s" then starting else finished

pub decode-marshal_update :
    (u : JobUpdate) (text : String) → marshal_update u ≡ some text → decode_update text ≡ u
decode-marshal_update u text h = elim (Bool-cases (same_update starting u)) [
  | inl same ↦
      let e : "s" ≡ text = ground (arith, h, same) in
      sym (ap decode_update e) ∙ same_update_sound starting u same
  | inr other ↦ elim (Bool-cases (same_update finished u)) [
    | inl same ↦
        let e : "f" ≡ text = ground (arith, h, other, same) in
        sym (ap decode_update e) ∙ same_update_sound finished u same
    | inr neither ↦ absurd (ground (arith, h, other, neither))
  ]
]

abbrev pub libs : Libraries Memory
libs = record Coordinators.libs {
  request_json = record Coordinators.libs.request_json {
    decode_update = λ n text. parsed (decode_update text);
  };
}

abbrev pub offer : Job
offer = record trial { id = "job-9"; status = "pending"; start_time = none }

abbrev pub is_absent : Option ℕ → Bool
is_absent none = true
is_absent (some _) = false

abbrev is_bare : Dict String → Bool
is_bare [] = true
is_bare (_ ∷ _) = false

abbrev pub is_offer : Job → Bool
is_offer j =
    j.id == "job-9"
    && (j.attempt_id == "a1"
        && (j.worker_id == "w1"
            && (j.task == "test"
                && (j.status == "pending"
                    && (is_absent j.start_time
                        && (is_absent j.end_time
                            && (j.result == ""
                                && (same_lines j.logs []
                                    && (j.profile == ""
                                        && (same_lines j.args []
                                            && (is_bare j.env
                                                && (same_int j.timeout_seconds (pos 0)
                                                    && j.challenge == "secret"))))))))))))

pub is_offer_sound : (j : Job) → is_offer j ≡ true → offer ≡ j
is_offer_sound j h = ground (
  arith,
  h,
  eq_iff j.id "job-9",
  eq_iff j.attempt_id "a1",
  eq_iff j.worker_id "w1",
  eq_iff j.task "test",
  eq_iff j.status "pending",
  eq_iff j.result "",
  eq_iff j.profile "",
  eq_iff j.challenge "secret",
  same_lines_sound j.logs [],
  same_lines_sound j.args [],
  same_int_sound j.timeout_seconds (pos 0),
)

-- The replies: one pairing, and one list of one job.
abbrev pub marshal_payload : Payload → Option String
marshal_payload (paired id token) = if id == "worker-7" && token == "t7" then some "p" else none
marshal_payload (job_list (j ∷ [])) = if is_offer j then some "j" else none
marshal_payload _ = none

abbrev pub decode_paired : String → Option (String × String)
decode_paired text = if text == "p" then some ("worker-7", "t7") else none

abbrev pub replies : ReplyJson
replies = record { marshal_payload = marshal_payload; marshal_error = λ e. some "e" }

abbrev pub is_credentials : WorkerCredentials → Bool
is_credentials c =
    c.worker_id == "worker-7"
    && (c.token == "t7"
        && (c.coordinator_url == "https://10.0.0.9:8080"
            && (c.fingerprint == "f"
                && (c.node_name == "rig" && (if c.insecure then false else true)))))

abbrev pub credentials : WorkerCredentials
credentials = record {
  worker_id = "worker-7";
  token = "t7";
  coordinator_url = "https://10.0.0.9:8080";
  fingerprint = "f";
  node_name = "rig";
  insecure = false;
}

pub is_credentials_sound : (c : WorkerCredentials) → is_credentials c ≡ true → credentials ≡ c
is_credentials_sound c h = ground (
  arith,
  h,
  eq_iff c.worker_id "worker-7",
  eq_iff c.token "t7",
  eq_iff c.coordinator_url "https://10.0.0.9:8080",
  eq_iff c.fingerprint "f",
  eq_iff c.node_name "rig",
)

abbrev pub marshal_pair : PairRequest → Option String
marshal_pair r = if is_enrolment r then some r.code else none

abbrev pub marshal_heartbeat : Heartbeat → Option String
marshal_heartbeat h = none

abbrev pub marshal_credentials : WorkerCredentials → Option String
marshal_credentials c = if is_credentials c then some "c" else none

pub credentials_round_trip :
    (c : WorkerCredentials) (text : String)
    → marshal_credentials c ≡ some text
    → some credentials ≡ some c
credentials_round_trip c text h = elim (Bool-cases (is_credentials c)) [
  | inl same ↦ ap some (is_credentials_sound c same)
  | inr other ↦ absurd (ground (arith, h, other))
]

abbrev pub json : WorkerJson
json = record {
  marshal_pair = marshal_pair;
  marshal_heartbeat = marshal_heartbeat;
  marshal_update = marshal_update;
  marshal_credentials = marshal_credentials;
  decode_paired = decode_paired;
  decode_jobs = λ text. some (offer ∷ []);
  decode_error = λ text. record { code = ""; message = ""; detail = "" };
  decode_credentials = λ text. some credentials;
  credentials_round_trip = credentials_round_trip;
}

pair_read :
    (r : PairRequest) (text : String)
    → marshal_pair r ≡ some text
    → ◌≡◌ {A = PairRequest} (record enrolment { code = text }) r
pair_read r text h = elim (Bool-cases (is_enrolment r)) [
  | inl same ↦
      let e : r.code ≡ text = ground (arith, h, same) in
      sym (ap (λ (c : String). record enrolment { code = c }) e) ∙ is_enrolment_sound r same
  | inr other ↦ absurd (ground (arith, h, other))
]

paired_read :
    (id token text : String)
    → marshal_payload (paired id token) ≡ some text
    → decode_paired text ≡ some (id, token)
paired_read id token text h = elim (Bool-cases (id == "worker-7" && token == "t7")) [
  | inl same ↦
      let e : "p" ≡ text = ground (arith, h, same) in
      sym (ap decode_paired e) ∙ ground (arith, same, eq_iff id "worker-7", eq_iff token "t7")
  | inr other ↦ absurd (ground (arith, h, other))
]

jobs_read :
    (jobs : List Job) (text : String)
    → marshal_payload (job_list jobs) ≡ some text
    → some (offer ∷ []) ≡ some jobs
jobs_read [] text h = absurd (ground (arith, h))
jobs_read (j ∷ []) text h = elim (Bool-cases (is_offer j)) [
  | inl same ↦ ap (λ (k : Job). some (k ∷ [])) (is_offer_sound j same)
  | inr other ↦ absurd (ground (arith, h, other))
]
jobs_read (_ ∷ _ ∷ _) text h = absurd (ground (arith, h))

pub agree : Agree libs json replies
agree = record {
  pair_read = λ limit r text h fits. ap parsed (pair_read r text h);
  heartbeat_read = λ limit b text h fits. absurd (ground (arith, h));
  update_read = λ limit u text h fits. ap parsed (decode-marshal_update u text h);
  paired_read = paired_read;
  jobs_read = jobs_read;
  nothing_read = refl;
}
