-- ===== src/Examples/Commands.antt =====
-- The commands of the relay's client, on a folder in memory.
use forge_grid.Prelude.{
  ◌≢◌, ◌≡◌, ◌↔◌, refl, sym, ap, ◌∙◌, nat_eq, trim_space, String, Bool, true, false, Option, none,
  some, [], ◌∷◌, arith, eq_iff, ◌==◌, ◌&&◌, Bool-cases, inl, inr, if◌then◌else◌, IsWithout,
}
use forge_grid.Dict.{Dict, lookup, insert, delete}
use forge_grid.Disk.Atomic.{atomic_write}
use forge_grid.Disk.Memory.{Memory, memory}
use forge_grid.Bridge.Models.{Time, AgentRegistration, StoreJson}
use forge_grid.Bridge.Store.{Store, load, ok, save, save_file, save_disk, new_store, register_agent}
use forge_grid.Bridge.Auth.{Limiter, admit, address_of, authenticate}
use forge_grid.Bridge.Auth.Credentials.{bearer}
use forge_grid.Bridge.Client.Secure.{write_secure_config, fill_file, replace_file}
use forge_grid.Bridge.Client.Commands.{
  ClientConfig, ConfigJson, Surroundings, get_config_path, ConfigureFlags, read_token, store_config,
  config_of, configure_client, get_client, client,
}
use forge_grid.Bridge.Client.Commands.Configured.{no_flags, client_of, configure_then_get}
use forge_grid.Bridge.Client.Commands.Registered.{
  register_in, register_loaded, register_command, register_then_authenticate, registration_lost,
  beside,
}
use forge_grid.Examples.Bridge.{only_empty, only_empty_messages, same_text, disk}
use forge_grid.Examples.Folders.{folder}

abbrev pub eve : AgentRegistration
eve = record { name = "eve"; token_hash = "secret"; created_at = 5 }

abbrev pub is_eve : String → AgentRegistration → Bool
is_eve name a =
    name == "eve" && (a.name == "eve" && (a.token_hash == "secret" && nat_eq a.created_at 5))

-- A codec for no agents and for the one agent.
abbrev pub marshal_agents : Dict AgentRegistration → Option String
marshal_agents [] = some "{}"
marshal_agents ((name, a) ∷ []) = if is_eve name a then some "{eve}" else none
marshal_agents (_ ∷ _ ∷ _) = none

abbrev pub unmarshal_agents : String → Option (Dict AgentRegistration)
unmarshal_agents text = if text == "{}" then some [] else some (("eve", eve) ∷ [])

is_eve_sound :
    (name : String) (a : AgentRegistration)
    → is_eve name a ≡ true
    → ◌≡◌ {A = Dict AgentRegistration} (("eve", eve) ∷ []) ((name, a) ∷ [])
is_eve_sound name a h =
    ground (arith, h, eq_iff name "eve", eq_iff a.name "eve", eq_iff a.token_hash "secret")

pub agents_read :
    (m : Dict AgentRegistration) (text : String)
    → marshal_agents m ≡ some text
    → unmarshal_agents text ≡ some m
agents_read [] text h = let e : "{}" ≡ text = ground (arith, h) in sym (ap unmarshal_agents e)
agents_read ((name, a) ∷ []) text h = elim (Bool-cases (is_eve name a)) [
  | inl same ↦
      let e : "{eve}" ≡ text = ground (arith, h, same) in
      sym (ap unmarshal_agents e) ∙ ap some (is_eve_sound name a same)
  | inr other ↦ absurd (ground (arith, h, other))
]
agents_read (_ ∷ _ ∷ _) text h = absurd (ground (arith, h))

abbrev json : StoreJson
json = record {
  marshal_agents = marshal_agents;
  marshal_messages = only_empty;
  unmarshal_agents = unmarshal_agents;
  unmarshal_messages = λ text. some [];
  indent = λ s. s;
  agents_round_trip = λ m text h. (m, agents_read m text h, λ k. refl);
  messages_round_trip = only_empty_messages;
}

register_then_authenticate_example :
    (s : Store Memory) × (new_store memory json true true
        (register_command memory json same_text "eve" (some "secret") 5 disk).0
      ≡ ok s)
    × ((remote : String) (later : Time) (l : Limiter)
        → ((authenticate same_text remote (bearer "eve" "secret") later s l).1 ≡ some "eve")
          ↔ (((admit (address_of remote) later l).1 ≡ true) × IsWithout b':' "eve"))
unfolding register_command register_loaded register_in register_agent new_store save save_disk
    save_file atomic_write insert delete lookup load
register_then_authenticate_example =
    register_then_authenticate memory json same_text "eve" "secret" (some "secret") 5 disk refl

abbrev relay : Store Memory
relay = record { agents = []; messages = []; disk = disk }

registration_lost_example :
    let d = (register_command memory json same_text "eve" (some "secret") 5 disk).0 in
    ((s : Store Memory) × (new_store memory json true true d ≡ ok s)
      × (lookup "eve" s.agents ≢ none))
    × ((t : Store Memory) × (new_store memory json true true
            (save memory json (beside memory json same_text relay d)).0.disk
          ≡ ok t)
        × (lookup "eve" t.agents ≡ none))
unfolding register_command register_loaded register_in register_agent new_store save save_disk
    save_file atomic_write insert delete lookup load
registration_lost_example =
    registration_lost memory json same_text "eve" "secret" (some "secret") 5 disk relay refl refl
      refl

abbrev config : ClientConfig
config = record { name = "eve"; token = "secret"; url = "https://relay"; fingerprint = "f" }

abbrev is_config : ClientConfig → Bool
is_config c =
    c.name == "eve" && (c.token == "secret" && (c.url == "https://relay" && c.fingerprint == "f"))

is_config_sound : (c : ClientConfig) → is_config c ≡ true → config ≡ c
is_config_sound c h = ground (
  arith,
  h,
  eq_iff c.name "eve",
  eq_iff c.token "secret",
  eq_iff c.url "https://relay",
  eq_iff c.fingerprint "f",
)

abbrev config_json : ConfigJson
config_json = record {
  marshal_config = λ c. if is_config c then some "{}" else none;
  unmarshal_config = λ text. some config;
  config_round_trip = λ c text h. elim (Bool-cases (is_config c)) [
    | inl same ↦ ap some (is_config_sound c same)
    | inr other ↦ absurd (ground (arith, other, h))
  ];
}

abbrev env : Surroundings
env = record { goos = "linux"; getenv = λ name. ""; home = "/root"; join = λ a b. b }

abbrev flags : ConfigureFlags
flags = record {
  name = "eve";
  url = "https://relay";
  token_file = "t";
  token_stdin = false;
  fingerprint = "f";
}

configure_then_get_example :
    get_client folder config_json env no_flags
      (configure_client folder config_json env flags none (("t", "secret") ∷ [])).0
    ≡ client (
        client_of (
          config_of folder config_json env flags
            (read_token folder config_json env flags none (("t", "secret") ∷ [])).2))
unfolding configure_client read_token store_config get_config_path write_secure_config fill_file
    replace_file insert delete lookup trim_space
configure_then_get_example =
    configure_then_get folder config_json env flags none (("t", "secret") ∷ []) refl
