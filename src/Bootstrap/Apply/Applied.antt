-- ===== src/Bootstrap/Apply/Applied.antt =====
-- What a run that applied a bundle did.
use forge_grid.Prelude.{
  String, ◌≡◌, ◌≢◌, refl, sym, ap, ◌∙◌, ◌⊎◌, inl, inr, Bool, true, Option, none, some, arith,
  eq_iff, Bool-cases, Option-cases,
}
use forge_grid.Bridge.Models.{Time, Decoded, malformed, one, trailing}
use forge_grid.Bridge.Client.Commands.{ClientConfig}
use forge_grid.Bootstrap.Bytes.{Bytes}
use forge_grid.Bootstrap.Payload.{BundleData}
use forge_grid.Bootstrap.Crypto.{Crypto}
use forge_grid.Bootstrap.Bundle.{Result, ok, err, decrypt_bootstrap_bundle}
use forge_grid.Bootstrap.Validate.{ReplayStore, validate_bootstrap_bundle}
use forge_grid.Bootstrap.Validate.Accepted.{IsSigned, IsCurrent, validate_accepted}
use forge_grid.Bootstrap.Apply.{
  local_app_data, config_path, ApplyError, Step, done, failed, ◌>>=◌, or_fail, key_unread,
  key_locked, private_key, signer_key, read_bundle, Host, Inputs, Paths, World, read_protected,
  check_config, configure_of, configure_and_commit, settle, apply_validated, apply_inputs,
  decrypt_protected_and_apply,
}

bind_done :
    {A B : Type 0} {b : B} (f : A → Step B) (m : Step A)
    → m >>= f ≡ done b
    → (a : A) × (m ≡ done a) × (f a ≡ done b)
bind_done f (failed e) h = absurd (ground (arith, h))
bind_done f (done a) h = (a, refl, h)

module _ {RsaPublic RsaPrivate SignPublic SignPrivate R S : Type 0}
    (c : Crypto RsaPublic RsaPrivate SignPublic SignPrivate) (host : Host R RsaPrivate SignPublic)
    (rs : ReplayStore S) where
  -- The configuration on disk is that of the bundle.
  pub record IsConfigured (bd : BundleData) (r : R) : Type 0 where
    pub text : Bytes
    pub cfg : ClientConfig
    pub read : host.read_file (config_path host.surroundings) r ≡ some text
    pub decoded : host.decode_config text ≡ one cfg
    pub same_name : cfg.name ≡ bd.agent_name
    pub same_url : cfg.url ≡ bd.relay_url
    pub same_fingerprint : cfg.fingerprint ≡ bd.fingerprint
    pub same_token : cfg.token ≡ bd.token

  check_config-IsConfigured :
      (bd : BundleData) (r : R)
      → check_config c host rs (host.read_file (config_path host.surroundings) r) bd ≡ none
      → IsConfigured bd r
  unfolding check_config
  check_config-IsConfigured bd r h =
      elim (Option-cases (host.read_file (config_path host.surroundings) r)) [
        | inl missing ↦ absurd (ground (arith, h, missing))
        | inr (text, read) ↦
            go text read (host.decode_config text) refl (rw (read, check_config) at h)
      ]
    where
      go :
          (text : Bytes)
          → host.read_file (config_path host.surroundings) r ≡ some text
          → (d : Decoded ClientConfig) → host.decode_config text ≡ d
          → check_config c host rs (some text) bd ≡ none
          → IsConfigured bd r
      go text read (malformed e) decoded h' = absurd (ground (arith, h', decoded))
      go text read (trailing cfg) decoded h' = absurd (ground (arith, h', decoded))
      go text read (one cfg) decoded h' = record {
        text = text;
        cfg = cfg;
        read = read;
        decoded = decoded;
        same_name = ground (arith, h', decoded, eq_iff cfg.name bd.agent_name);
        same_url = ground (arith, h', decoded, eq_iff cfg.url bd.relay_url);
        same_fingerprint = ground (arith, h', decoded, eq_iff cfg.fingerprint bd.fingerprint);
        same_token = ground (arith, h', decoded, eq_iff cfg.token bd.token);
      }

  -- What the run of configure-client and the commit did if there was no error.
  record IsCommitted (id : String) (bd : BundleData) (w : World S R) (w' : World S R) : Type 0 where
    pub configured : (host.configure (configure_of c host rs bd) w.rest).1 ≡ true
    pub config : IsConfigured bd (host.configure (configure_of c host rs bd) w.rest).0
    pub committed : (rs.commit id w.replays).1 ≡ true
    pub consumed : w'.replays ≡ (rs.commit id w.replays).0

  configure_and_commit-IsCommitted :
      (id : String) (bd : BundleData) (w : World S R)
      → (configure_and_commit c host rs id bd w).1 ≡ none
      → IsCommitted id bd w (configure_and_commit c host rs id bd w).0
  unfolding configure_and_commit
  configure_and_commit-IsCommitted id bd w h =
      let r1 = (host.configure (configure_of c host rs bd) w.rest).0 in
      let file = host.read_file (config_path host.surroundings) r1 in
      elim (Bool-cases (host.configure (configure_of c host rs bd) w.rest).1) [
        | inr broken ↦ absurd (ground (arith, h, broken))
        | inl configured ↦ elim (Option-cases (check_config c host rs file bd)) [
          | inr (e, wrong) ↦ absurd (ground (arith, h, configured, wrong))
          | inl right ↦
              rw (configured, configure_and_commit)
                (rw right (record {
                  configured = configured;
                  config = check_config-IsConfigured bd r1 right;
                  committed = ground (arith, h, configured, right);
                  consumed = refl;
                }))
        ]
      ]

  -- The deferred function gives the error back, and releases the id if there is one.
  pub settle_cases :
      (paths : Paths) (id : String) (p : World S R × Option ApplyError)
      → (((settle c host rs paths id p).1 ≡ none)
          × (p.1 ≡ none)
          × ((settle c host rs paths id p).0.replays ≡ p.0.replays))
        ⊎ (((settle c host rs paths id p).1 ≢ none)
            × ((settle c host rs paths id p).0.replays ≡ (rs.release id p.0.replays).0))
  unfolding settle
  settle_cases paths id (w, none) = inl (refl, refl, refl)
  settle_cases paths id (w, some e) = inr (none-ne, refl)
    where
      none-ne : some e ≢ none
      none-ne h = ground (arith, h)

  -- The directory of the replay store is made first.
  abbrev pub secured : R → R × Bool
  secured r =
      host.secure_directory
        (host.surroundings.join
          (host.surroundings.join (local_app_data host.surroundings) "ForgeGrid") "bootstrap")
        r

  -- A bundle that was applied: it was valid for this agent, the client is configured with what it
  -- decrypts to, and its id was reserved and then committed.
  pub record IsApplied (agent : String) (now : Time) (i : Inputs RsaPrivate SignPublic)
      (w w' : World S R) : Type 0 where
    pub content : BundleData
    pub signed : IsSigned c i.bundle i.key i.signer agent
    pub decrypted : decrypt_bootstrap_bundle c (some i.bundle) i.key ≡ ok content
    pub current : IsCurrent c i.bundle agent now content
    pub config :
        IsConfigured content (host.configure (configure_of c host rs content) (secured w.rest).0).0
    pub reserved : (rs.reserve i.bundle.bootstrap_id w.replays).1 ≡ true
    pub committed :
        (rs.commit i.bundle.bootstrap_id (rs.reserve i.bundle.bootstrap_id w.replays).0).1 ≡ true
    pub consumed :
        w'.replays
        ≡ (rs.commit i.bundle.bootstrap_id (rs.reserve i.bundle.bootstrap_id w.replays).0).0

  pub apply_inputs-IsApplied :
      (paths : Paths) (agent : String) (now : Time) (w : World S R)
      (i : Inputs RsaPrivate SignPublic)
      → (apply_inputs c host rs paths agent now w (done i)).1 ≡ none
      → IsApplied agent now i w (apply_inputs c host rs paths agent now w (done i)).0
  unfolding apply_inputs
  apply_inputs-IsApplied paths agent now w i h = elim (Bool-cases (secured w.rest).1) [
    | inr failed' ↦ absurd (ground (arith, h, failed'))
    | inl made ↦
        rw (made, apply_inputs)
          (go
            (validate_bootstrap_bundle c (some i.bundle) i.key i.signer agent (some rs) now
              w.replays)
            refl (rw (made, apply_inputs) at h))
  ]
    where
      go :
          (v : S × Result BundleData)
          → validate_bootstrap_bundle c (some i.bundle) i.key i.signer agent (some rs) now w.replays
            ≡ v
          → (apply_validated c host rs paths i.bundle.bootstrap_id v (secured w.rest).0).1 ≡ none
          → IsApplied agent now i w
              (apply_validated c host rs paths i.bundle.bootstrap_id v (secured w.rest).0).0
      go (s, err e) same h' = absurd (ground (arith, h'))
      go (s, ok bd) same h' =
          let id = i.bundle.bootstrap_id in
          let w1 : World S R = record { replays = s; rest = (secured w.rest).0 } in
          let (signed, decrypted, current, reserved, kept) =
            validate_accepted c i.bundle i.key i.signer agent rs now w.replays bd
              (ap (λ (p : S × Result BundleData). p.1) same) in
          let start : s ≡ (rs.reserve id w.replays).0 =
            sym (ap (λ (p : S × Result BundleData). p.0) same) ∙ kept in
          elim (settle_cases paths id (configure_and_commit c host rs id bd w1)) [
            | inr (bad, _) ↦ absurd (bad h')
            | inl (_, fine, same_replays) ↦
                let k = configure_and_commit-IsCommitted id bd w1 fine in
                record {
                  content = bd;
                  signed = signed;
                  decrypted = decrypted;
                  current = current;
                  config = k.config;
                  reserved = reserved;
                  committed = ap (λ (t : S). (rs.commit id t).1) (sym start) ∙ k.committed;
                  consumed = same_replays ∙ k.consumed ∙ ap (λ (t : S). (rs.commit id t).0) start;
                }
          ]

  read_protected-expected :
      (paths : Paths) (expected : String) (r : R) (i : Inputs RsaPrivate SignPublic)
      → read_protected c host rs paths expected r ≡ done i
      → i.bundle.signer_fingerprint ≡ expected
  unfolding read_protected
  read_protected-expected paths expected r i h =
      let (_, _, h1) = bind_done _ (or_fail key_unread (host.read_file paths.key r)) h in
      let (_, _, h2) = bind_done _ (or_fail key_locked (host.unprotect _)) h1 in
      let (_, _, h3) = bind_done _ (private_key c host rs _) h2 in
      let (_, _, h4) = bind_done _ (signer_key c host rs (host.read_file paths.signer r)) h3 in
      let (bundle, _, h5) =
        bind_done _ (read_bundle c host rs (host.read_file paths.bundle r)) h4 in
      ground (arith, h5, eq_iff bundle.signer_fingerprint expected)

  -- If decrypt-protected-and-apply reports no error, the files gave a key, a signer and a bundle that
  -- names the expected signer; the bundle was signed by the signer for this machine and this key, and
  -- what it decrypts to under the key is in force; the configuration that the client then has repeats
  -- the name, the URL, the fingerprint and the token of what was decrypted, and the id of the bundle
  -- was reserved and committed.
  pub decrypt_protected_and_apply_done :
      (paths : Paths) (expected : String) (now : Time) (w : World S R)
      → (decrypt_protected_and_apply c host rs paths expected now w).1 ≡ none
      → (i : Inputs RsaPrivate SignPublic) × (read_protected c host rs paths expected w.rest
          ≡ done i)
        × (i.bundle.signer_fingerprint ≡ expected)
        × IsApplied host.hostname now i w
            (decrypt_protected_and_apply c host rs paths expected now w).0
  unfolding decrypt_protected_and_apply
  decrypt_protected_and_apply_done paths expected now w h =
      go (read_protected c host rs paths expected w.rest) refl h
    where
      go :
          (x : Step (Inputs RsaPrivate SignPublic))
          → read_protected c host rs paths expected w.rest ≡ x
          → (apply_inputs c host rs paths host.hostname now w x).1 ≡ none
          → (i : Inputs RsaPrivate SignPublic) × (x ≡ done i)
            × (i.bundle.signer_fingerprint ≡ expected)
            × IsApplied host.hostname now i w (apply_inputs c host rs paths host.hostname now w x).0
      go (failed e) same h' = absurd (unfold apply_inputs in ground (arith, h'))
      go (done i) same h' = (
        i,
        refl,
        read_protected-expected paths expected w.rest i same,
        apply_inputs-IsApplied paths host.hostname now w i h',
      )
