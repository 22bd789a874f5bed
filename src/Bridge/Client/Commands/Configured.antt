-- ===== src/Bridge/Client/Commands/Configured.antt =====
-- A client that was configured, and the commands that use it.
use forge_grid.Prelude.{
  String, ◌≡◌, ◌≢◌, refl, sym, ap, ◌∙◌, false, Option, none, some, arith, ◌==◌, ◌||◌, eq_iff,
  Bool-cases, Option-cases, inl, inr,
}
use forge_grid.Bridge.Client.{Client, trust_pin, new_client}
use forge_grid.Bridge.Client.Secure.{Files, write_secure_config_cases}
use forge_grid.Bridge.Client.Commands.{
  ClientConfig, ConfigJson, Surroundings, get_config_path, default_url, ConfigureFlags, read_token,
  store_config, config_of, configure_client, ClientFlags, with_config, client, client_from,
  read_config, get_client,
}

abbrev pub no_flags : ClientFlags
no_flags = record { url = default_url; name = ""; fingerprint = ""; insecure = false }

-- The client that a configuration describes.
abbrev pub client_of : ClientConfig → Client
client_of cfg = record {
  base_url = cfg.url;
  agent_name = cfg.name;
  token = cfg.token;
  trust = trust_pin cfg.fingerprint;
}

client_from-config :
    (getenv : String → String) (cfg : ClientConfig)
    → cfg.name ≢ ""
    → cfg.token ≢ ""
    → cfg.fingerprint ≢ ""
    → let (flags, token) = with_config no_flags (some cfg) in
      client_from getenv flags token ≡ client (client_of cfg)
unfolding with_config client_from new_client
client_from-config getenv cfg n t f =
    ground (arith, n, t, f, eq_iff cfg.name "", eq_iff cfg.token "", eq_iff cfg.fingerprint "")

module _ {D : Type 0} (os : Files D) (json : ConfigJson) (env : Surroundings) where
  store_config-read :
      (cfg : ClientConfig) (d : D)
      → (store_config os json env (json.marshal_config cfg) d).1 ≡ none
      → read_config os json env (store_config os json env (json.marshal_config cfg) d).0 ≡ some cfg
  unfolding store_config read_config
  store_config-read cfg d done = elim (Option-cases (json.marshal_config cfg)) [
    | inl bad ↦ absurd (ground (arith, done, bad))
    | inr (text, written) ↦ elim (write_secure_config_cases os (get_config_path env) text d) [
      | inr (failed, _) ↦ absurd (ground (arith, done, written, failed))
      | inl (_, read) ↦
          rw (written, store_config)
            (rw (read, read_config) (json.config_round_trip cfg text written))
    ]
  ]

  -- What configure-client stored if it reported no error.
  record IsConfigured (flags : ConfigureFlags) (stdin : Option String) (d : D) : Type 0 where
    pub token : String
    pub read : (read_token os json env flags stdin d).1 ≡ none
    pub token_is : (read_token os json env flags stdin d).2 ≡ token
    pub filled : token ≢ ""
    pub named : flags.name ≢ ""
    pub marked : flags.fingerprint ≢ ""
    pub stored :
        read_config os json env (configure_client os json env flags stdin d).0
        ≡ some (config_of os json env flags token)

  configure_client-IsConfigured :
      (flags : ConfigureFlags) (stdin : Option String) (d : D)
      → (configure_client os json env flags stdin d).1 ≡ none
      → IsConfigured flags stdin d
  unfolding configure_client
  configure_client-IsConfigured flags stdin d done =
      let token = (read_token os json env flags stdin d).2 in
      elim (Bool-cases (flags.name == "" || flags.fingerprint == "")) [
        | inl missing ↦ absurd (ground (arith, done, missing))
        | inr given ↦ elim (Option-cases (read_token os json env flags stdin d).1) [
          | inr (e, unread) ↦ absurd (ground (arith, done, given, unread))
          | inl read ↦ elim (Bool-cases (token == "")) [
            | inl empty ↦ absurd (ground (arith, done, given, read, empty))
            | inr filled ↦ record {
              token = token;
              read = read;
              token_is = refl;
              filled = ground (arith, filled, eq_iff token "");
              named = ground (arith, given, eq_iff flags.name "");
              marked = ground (arith, given, eq_iff flags.fingerprint "");
              stored =
                  rw (given, configure_client)
                    (rw (read, filled)
                      (store_config-read (config_of os json env flags token)
                        (read_token os json env flags stdin d).0
                        (rw (read, filled) at (rw (given, configure_client) at done))));
            }
          ]
        ]
      ]

  -- After a configure-client that reports no error, a command without flags has a client with the
  -- name, the URL and the token that were given, white space around the token apart, which pins the
  -- fingerprint that was given, whatever the environment holds.
  pub configure_then_get :
      (flags : ConfigureFlags) (stdin : Option String) (d : D)
      → (configure_client os json env flags stdin d).1 ≡ none
      → get_client os json env no_flags (configure_client os json env flags stdin d).0
        ≡ client (client_of (config_of os json env flags (read_token os json env flags stdin d).2))
  unfolding get_client
  configure_then_get flags stdin d done =
      let c = configure_client-IsConfigured flags stdin d done in
      let cfg = config_of os json env flags c.token in
      ap
        (λ (o : Option ClientConfig).
          client_from env.getenv (with_config no_flags o).0 (with_config no_flags o).1)
        c.stored
      ∙ client_from-config env.getenv cfg c.named c.filled c.marked
      ∙ ap (λ (t : String). client (client_of (config_of os json env flags t))) (sym c.token_is)
