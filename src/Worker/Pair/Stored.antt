-- ===== src/Worker/Pair/Stored.antt =====
-- The credentials that a pairing leaves on disk, and the next start of the worker that reads them.
use forge_grid.Prelude.{
  String, ◌≡◌, refl, ap, ◌∙◌, true, Option, none, some, arith, Bool-cases, Option-cases, inl, inr,
  nat_eq,
}
use forge_grid.Disk.{FileSystem}
use forge_grid.Disk.Atomic.{atomic_write, atomic_write_done}
use forge_grid.Worker.{
  Worker, Answer, Net, WorkerJson, bytes_of, setup_client, with_credentials, load_creds,
}
use forge_grid.Worker.Hardware.{Machine}
use forge_grid.Worker.Pair.{
  PairResult, is_paired, credentials_of, aimed, pair_call, keep_credentials, take_answer, pair,
}

-- Two workers that speak to the coordinator alike.
pub record IsSameLink (v w : Worker) : Type 0 where
  pub same_id : v.worker_id ≡ w.worker_id
  pub same_token : v.token ≡ w.token
  pub same_url : v.coordinator_url ≡ w.coordinator_url
  pub same_fingerprint : v.fingerprint ≡ w.fingerprint
  pub same_mode : v.insecure ≡ w.insecure
  pub same_client : v.client ≡ w.client

-- The client that setup_client makes of the worker's own fields.
abbrev IsSetUp : Worker → Type 0
IsSetUp w = (setup_client w.fingerprint w).client ≡ w.client

aimed-IsSetUp : (ip fingerprint : String) (w : Worker) → IsSetUp (aimed ip fingerprint w)
unfolding aimed setup_client
aimed-IsSetUp ip fingerprint w = refl

with_credentials-same :
    (w fresh : Worker) → IsSetUp w → IsSameLink (with_credentials (credentials_of w) fresh) w
unfolding with_credentials credentials_of setup_client
with_credentials-same w fresh h = record {
  same_id = refl;
  same_token = refl;
  same_url = refl;
  same_fingerprint = refl;
  same_mode = refl;
  same_client = h;
}

module _ {W D : Type 0} (net : Net W) (os : FileSystem D) (json : WorkerJson) where
  load_creds-stored :
      (path : String) (w fresh : Worker) (d : D)
      → (text : String) → json.marshal_credentials (credentials_of w) ≡ some text
      → os.read_file path d ≡ some text
      → load_creds os json path d fresh ≡ some (with_credentials (credentials_of w) fresh)
  unfolding load_creds
  load_creds-stored path w fresh d text marshalled stored =
      rw (stored, load_creds)
        (rw (json.credentials_round_trip (credentials_of w) text marshalled) refl)

  -- What a pairing that succeeds did to the worker and to its disk.
  record IsKept (path : String) (w : Worker) (d : D) (p : Worker × D × PairResult) : Type 0 where
    pub kept : p.1 ≡ keep_credentials net os json path p.0 d
    pub set_up : IsSetUp p.0

  take_answer-IsKept :
      (path : String) (w : Worker) (d : D) (a : Option Answer)
      → IsSetUp w
      → (take_answer net os json path w d a).2 ≡ is_paired
      → IsKept path w d (take_answer net os json path w d a)
  unfolding take_answer setup_client
  take_answer-IsKept path w d none h done = absurd (ground (arith, done))
  take_answer-IsKept path w d (some a) h done = elim (Bool-cases (nat_eq a.status 200)) [
    | inr failed ↦ absurd (ground (arith, done, failed))
    | inl fine ↦ elim (Option-cases (json.decode_paired a.body)) [
      | inl bad ↦ absurd (ground (arith, done, fine, bad))
      | inr (p, read) ↦ rw (fine, take_answer) (rw read (record { kept = refl; set_up = h }))
    ]
  ]

  -- If a pairing succeeds and its credentials are marshalled and written without an error, the worker that starts
  -- next on that disk, whatever its flags, loads the id, the token, the URL, the fingerprint and the
  -- mode of the worker that paired, and has the same client.
  pub pair_then_load :
      (path ip code fingerprint : String) (machine : Machine) (w fresh : Worker) (s : W) (d : D)
      → (pair net os json path ip code fingerprint machine w s d).3 ≡ is_paired
      → let (_, w', d', _) = pair net os json path ip code fingerprint machine w s d in
        (text : String)
        → json.marshal_credentials (credentials_of w') ≡ some text
        → (atomic_write os path text d).1 ≡ true
        → (v : Worker) × (load_creds os json path d' fresh ≡ some v) × IsSameLink v w'
  unfolding pair keep_credentials
  pair_then_load path ip code fingerprint machine w fresh s d done text marshalled written =
      let w1 = aimed ip fingerprint w in
      let answer = (net (pair_call net os json code machine w1) s).1 in
      let kept = take_answer-IsKept path w1 d answer (aimed-IsSetUp ip fingerprint w) done in
      let w' = (take_answer net os json path w1 d answer).0 in
      (
        with_credentials (credentials_of w') fresh,
        load_creds-stored path w' fresh _ text marshalled (
            ap (os.read_file path) kept.kept
            ∙ ap (λ (o : Option String). os.read_file path (atomic_write os path (bytes_of o) d).0)
                marshalled
            ∙ atomic_write_done os path text d written),
        with_credentials-same w' fresh kept.set_up,
      )
