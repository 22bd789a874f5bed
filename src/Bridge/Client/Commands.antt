-- ===== src/Bridge/Client/Commands.antt =====
-- internal/agentbridge/cli.go: the commands of a client. Parsed flags are a record; a command that
-- ends in log.Fatal or os.Exit gives an error.
pub mod Configured
pub mod Keys
pub mod Registered
use Prim.Native.String.{◌++◌}
use forge_grid.Prelude.{
  ◌≡◌, pos, String, Bool, true, false, Option, none, some, ◌==◌, ◌||◌, trim_space, if◌then◌else◌,
}
use forge_grid.Bridge.Models.{AgentMessage, MessageRequest}
use forge_grid.Bridge.Client.{
  Client, Net, ClientJson, Outcome, ok, new_client, send_message, get_inbox, acknowledge, complete,
  fail,
}
use forge_grid.Bridge.Client.Secure.{Files, write_secure_config}

pub record ClientConfig : Type 0 where
  pub name : String
  pub token : String
  pub url : String
  pub fingerprint : String

pub record ConfigJson : Type 0 where
  pub marshal_config : ClientConfig → Option String
  pub unmarshal_config : String → Option ClientConfig
  pub config_round_trip :
      (cfg : ClientConfig) (text : String)
      → marshal_config cfg ≡ some text
      → unmarshal_config text ≡ some cfg

-- runtime.GOOS, os.Getenv, os.UserHomeDir (its error is dropped) and filepath.Join.
pub record Surroundings : Type 0 where
  pub goos : String
  pub getenv : String → String
  pub home : String
  pub join : String → String → String

abbrev or_profile : Surroundings → String → String
or_profile env local =
    if local == "" then env.join (env.join (env.getenv "USERPROFILE") "AppData") "Local" else local

unfoldable pub get_config_path : Surroundings → String
get_config_path env =
    if env.goos == "windows"
    then env.join (env.join (or_profile env (env.getenv "LOCALAPPDATA")) "ForgeGrid")
        "agentclient.json"
    else env.join (env.join (env.join env.home ".config") "forgegrid") "agentclient.json"

pub data CommandError : Type 0 where
  usage stdin_unread token_file_unread no_token_source empty_token : CommandError
  config_unmarshalled config_unsaved : CommandError
  no_credentials no_fingerprint : CommandError

abbrev pub default_url : String
default_url = "https://127.0.0.1:9090"

-- The flags of configure-client; the URL has a default.
pub record ConfigureFlags : Type 0 where
  pub name : String
  pub url : String
  pub token_file : String
  pub token_stdin : Bool
  pub fingerprint : String

module _ {D : Type 0} (os : Files D) (json : ConfigJson) (env : Surroundings) where
  -- The token, and the disk without the token file once that was read. `none` on stdin is an error.
  unfoldable pub read_token : ConfigureFlags → Option String → D → D × Option CommandError × String
  unfolding trim_space
  read_token flags stdin d =
      if flags.token_stdin
      then elim stdin [ none ↦ (d, some stdin_unread, "") | some text ↦ (d, none, trim_space text) ]
      else if flags.token_file == ""
      then (d, some no_token_source, "")
      else elim (os.read_file flags.token_file d) [
        | none ↦ (d, some token_file_unread, "")
        | some text ↦ (os.remove flags.token_file d, none, trim_space text)
      ]

  unfoldable pub store_config : Option String → D → D × Option CommandError
  store_config none d = (d, some config_unmarshalled)
  store_config (some text) d =
      let (d', written) = write_secure_config os (get_config_path env) text d in
      (d', if written then none else some config_unsaved)

  abbrev pub config_of : ConfigureFlags → String → ClientConfig
  config_of flags token = record {
    name = flags.name;
    token = token;
    url = flags.url;
    fingerprint = flags.fingerprint;
  }

  unfoldable pub configure_client : ConfigureFlags → Option String → D → D × Option CommandError
  unfolding read_token store_config
  configure_client flags stdin d =
      let (d', unread, token) = read_token flags stdin d in
      if flags.name == "" || flags.fingerprint == "" then (d, some usage) else elim unread [
        | some e ↦ (d', some e)
        | none ↦
            if token == ""
            then (d', some empty_token)
            else store_config (json.marshal_config (config_of flags token)) d'
      ]

  -- An error of Remove is dropped.
  unfoldable pub reset_client : D → D
  reset_client d = os.remove (get_config_path env) d

-- The flags of getClient, and then its three values with the token.
pub record ClientFlags : Type 0 where
  pub url : String
  pub name : String
  pub fingerprint : String
  pub insecure : Bool

abbrev or_else : String → String → String
or_else s t = if s == "" then t else s

-- The values that the flags leave open are the configuration's; the token is always the
-- configuration's, as there is no flag for it.
unfoldable pub with_config : ClientFlags → Option ClientConfig → ClientFlags × String
with_config flags none = (flags, "")
with_config flags (some cfg) = (
  record {
    url = if flags.url == default_url then cfg.url else flags.url;
    name = or_else flags.name cfg.name;
    fingerprint = or_else flags.fingerprint cfg.fingerprint;
    insecure = flags.insecure;
  },
  cfg.token,
)

pub data ClientResult : Type 0 where
  client : Client → ClientResult
  no_client : CommandError → ClientResult

unfoldable pub client_from : (String → String) → ClientFlags → String → ClientResult
unfolding new_client
client_from getenv flags token =
    let name = or_else flags.name (getenv "AGENT_NAME") in
    let secret = or_else token (getenv "AGENT_TOKEN") in
    let fingerprint = or_else flags.fingerprint (getenv "AGENT_FINGERPRINT") in
    if name == "" || secret == ""
    then no_client no_credentials
    else elim (new_client flags.url name secret fingerprint flags.insecure) [
      | none ↦ no_client no_fingerprint
      | some c ↦ client c
    ]

module _ {D : Type 0} (os : Files D) (json : ConfigJson) (env : Surroundings) where
  -- A configuration that cannot be read or parsed is none.
  unfoldable pub read_config : D → Option ClientConfig
  read_config d = elim (os.read_file (get_config_path env) d) [
    | none ↦ none
    | some text ↦ json.unmarshal_config text
  ]

  unfoldable pub get_client : ClientFlags → D → ClientResult
  unfolding read_config with_config client_from
  get_client flags d =
      let (flags', token) = with_config flags (read_config d) in client_from env.getenv flags' token

-- The commands that call the relay: `none` where a flag is missing or a file is not read.
module _ {W : Type 0} (net : Net W) (json : ClientJson) where
  unfoldable pub send_command :
      String → String → String → String → String → Client → W → Option (W × Outcome AgentMessage)
  unfolding send_message
  send_command to task type body key c s =
      if to == "" || body == ""
      then none
      else some (
          send_message net json
            (record {
              recipient = to;
              task_id = task;
              type = type;
              body = body;
              ttl = pos 3600;
              idempotency_key = key;
            })
            c s)

  unfoldable pub ack_command : String → Client → W → Option (W × Outcome AgentMessage)
  unfolding acknowledge
  ack_command id c s = if id == "" then none else some (acknowledge net json id c s)

  -- The content of the result file, if a file is named, or the given default.
  abbrev result_from : (String → Option String) → String → String → Option String
  result_from read_file given file = if file == "" then some given else read_file file

  unfoldable pub complete_command :
      (String → Option String) → String → String → Client → W → Option (W × Outcome AgentMessage)
  unfolding complete
  complete_command read_file id file c s =
      if id == "" then none else elim (result_from read_file "{\"status\":\"ok\"}" file) [
        | none ↦ none
        | some result ↦ some (complete net json id result c s)
      ]

  unfoldable pub fail_command :
      (String → Option String) → String → String → Client → W → Option (W × Outcome AgentMessage)
  unfolding fail
  fail_command read_file id file c s =
      if id == "" then none else elim (result_from read_file "{\"status\":\"failed\"}" file) [
        | none ↦ none
        | some result ↦ some (fail net json id result c s)
      ]
