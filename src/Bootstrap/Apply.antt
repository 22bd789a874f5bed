-- ===== src/Bootstrap/Apply.antt =====
-- .agents/scripts/bootstrap-crypto/main.go: the commands that encrypt a bundle, and that decrypt one
-- and configure the client with it.
pub mod Environment
pub mod Applied
pub mod Failed
pub mod Once
use Prim.Native.String.{◌++◌ as ◌<>◌}
use forge_grid.Prelude.{
  ℕ, String, Bool, true, false, Option, none, some, List, [], ◌∷◌, ◌++◌, not, ◌&&◌, ◌||◌, ◌==◌,
  nat_eq, length, cut_at, if◌then◌else◌,
}
use forge_grid.Bridge.Models.{Time, Decoded, malformed, one, trailing}
use forge_grid.Bridge.Client.Commands.{ClientConfig, Surroundings}
use forge_grid.Bootstrap.Bytes.{Bytes}
use forge_grid.Bootstrap.Payload.{BundleData, EncryptedBundle}
use forge_grid.Bootstrap.Crypto.{Crypto}
use forge_grid.Bootstrap.Bundle.{BundleError, Result, ok, err, generate_signed_bootstrap_bundle}
use forge_grid.Bootstrap.Validate.{ReplayStore, validate_bootstrap_bundle}

-- Whether an entry of the environment sets LOCALAPPDATA; `equal_fold` is strings.EqualFold.
unfoldable pub sets_local : (String → String → Bool) → String → Bool
sets_local equal_fold entry = elim (cut_at b'=' entry) [
  | none ↦ false
  | some (name, _) ↦ equal_fold name "LOCALAPPDATA"
]

-- The loop over the entries.
unfoldable pub other_entries : (String → String → Bool) → List String → List String
unfolding sets_local
other_entries equal_fold [] = []
other_entries equal_fold (entry ∷ environ) =
    let rest = other_entries equal_fold environ in
    if sets_local equal_fold entry then rest else entry ∷ rest

unfoldable pub environment_with_local_app_data :
    (String → String → Bool) → List String → String → List String
unfolding other_entries
environment_with_local_app_data equal_fold environ local =
    other_entries equal_fold environ ++ (("LOCALAPPDATA=" <> local) ∷ [])

unfoldable pub local_app_data : Surroundings → String
local_app_data env =
    let local = env.getenv "LOCALAPPDATA" in
    if local == "" then env.join (env.join (env.getenv "USERPROFILE") "AppData") "Local" else local

unfoldable pub config_path : Surroundings → String
unfolding local_app_data
config_path env =
    if env.goos == "windows"
    then env.join (env.join (local_app_data env) "ForgeGrid") "agentclient.json"
    else env.join (env.join (env.join env.home ".config") "forgegrid") "agentclient.json"

-- What is run to configure the client: its flags, its environment and its standard input.
pub record Configure : Type 0 where
  pub name : String
  pub url : String
  pub fingerprint : String
  pub environ : List String
  pub stdin : String

pub data ApplyError : Type 0 where
  key_unread key_locked no_key_block bad_key : ApplyError
  signer_unread no_signer_block bad_signer_size : ApplyError
  bundle_unread bad_bundle fingerprint_mismatch directory_failed : ApplyError
  validation_failed : BundleError → ApplyError
  -- The pipe, the start, the write of the token or the wait.
  configure_failed : ApplyError
  config_missing config_malformed config_trailing config_mismatch commit_failed : ApplyError

-- What a step gave, or its error.
pub data Step (A : Type 0) : Type 0 where
  done : A → Step A
  failed : ApplyError → Step A

infixl 5 ◌>>=◌ ◌>>◌
abbrev pub ◌>>=◌ : {A B : Type 0} → Step A → (A → Step B) → Step B
done a >>= f = f a
failed e >>= f = failed e

abbrev pub ◌>>◌ : {B : Type 0} → Step (Unit {0}) → Step B → Step B
m >> k = m >>= λ _. k

abbrev pub or_fail : {A : Type 0} → ApplyError → Option A → Step A
or_fail e none = failed e
or_fail e (some a) = done a

abbrev pub require : Bool → ApplyError → Step (Unit {0})
require true e = done tt
require false e = failed e

-- The machine, but for the replay store: packages os, encoding/pem, crypto/x509 and encoding/json,
-- the data protection of Windows, and the program that is run.
pub record Host (R RsaPrivate SignPublic : Type 0) : Type 0 where
  pub read_file : String → R → Option Bytes
  pub unprotect : Bytes → Option Bytes
  pub decode_pem : Bytes → Option Bytes
  pub parse_private : Bytes → Option RsaPrivate
  pub sign_public_of : Bytes → SignPublic
  pub unmarshal_bundle : Bytes → Option EncryptedBundle
  pub secure_directory : String → R → R × Bool
  pub configure : Configure → R → R × Bool
  pub decode_config : Bytes → Decoded ClientConfig
  -- Stat, WriteFile of as many zeroes, and Remove: the Boolean says that there was no error.
  pub size_of : String → R → Option ℕ
  pub write_zeroes : String → ℕ → R → R × Bool
  pub remove : String → R → R × Bool
  pub environ : List String
  pub equal_fold : String → String → Bool
  pub surroundings : Surroundings
  pub hostname : String

-- What is read from the files.
pub record Inputs (RsaPrivate SignPublic : Type 0) : Type 0 where
  pub key : RsaPrivate
  pub signer : SignPublic
  pub bundle : EncryptedBundle

-- The paths of the arguments.
pub record Paths : Type 0 where
  pub key : String
  pub bundle : String
  pub signer : String

-- The replay store's state, and the rest of the machine.
pub record World (S R : Type 0) : Type 0 where
  pub replays : S
  pub rest : R

module _ {RsaPublic RsaPrivate SignPublic SignPrivate R S : Type 0}
    (c : Crypto RsaPublic RsaPrivate SignPublic SignPrivate) (host : Host R RsaPrivate SignPublic)
    (rs : ReplayStore S) where
  abbrev pub private_key : Bytes → Step RsaPrivate
  private_key pem = do
    block ← or_fail no_key_block (host.decode_pem pem)
    or_fail bad_key (host.parse_private block)

  abbrev pub signer_key : Option Bytes → Step SignPublic
  signer_key file = do
    pem ← or_fail signer_unread file
    block ← or_fail no_signer_block (host.decode_pem pem)
    require (nat_eq (length block) 32) bad_signer_size
    done (host.sign_public_of block)

  abbrev pub read_bundle : Option Bytes → Step EncryptedBundle
  read_bundle file = do
    text ← or_fail bundle_unread file
    or_fail bad_bundle (host.unmarshal_bundle text)

  unfoldable pub read_inputs : Paths → R → Step (Inputs RsaPrivate SignPublic)
  read_inputs paths r = do
    pem ← or_fail key_unread (host.read_file paths.key r)
    key ← private_key pem
    signer ← signer_key (host.read_file paths.signer r)
    bundle ← read_bundle (host.read_file paths.bundle r)
    done (record { key = key; signer = signer; bundle = bundle })

  -- The key is unprotected first, and the bundle names the expected signer.
  unfoldable pub read_protected : Paths → String → R → Step (Inputs RsaPrivate SignPublic)
  read_protected paths expected r = do
    blob ← or_fail key_unread (host.read_file paths.key r)
    pem ← or_fail key_locked (host.unprotect blob)
    key ← private_key pem
    signer ← signer_key (host.read_file paths.signer r)
    bundle ← read_bundle (host.read_file paths.bundle r)
    require (bundle.signer_fingerprint == expected) fingerprint_mismatch
    done (record { key = key; signer = signer; bundle = bundle })

  unfoldable pub best_effort_delete : String → R → R
  best_effort_delete path r = elim (host.size_of path r) [
    | none ↦ r
    | some size ↦
        let (r', zeroed) = host.write_zeroes path size r in
        if zeroed then (host.remove path r').0 else r'
  ]

  abbrev pub matches : ClientConfig → BundleData → Bool
  matches cfg bd =
      cfg.name == bd.agent_name
      && (cfg.url == bd.relay_url && (cfg.fingerprint == bd.fingerprint && cfg.token == bd.token))

  abbrev check_decoded : Decoded ClientConfig → BundleData → Option ApplyError
  check_decoded (malformed _) bd = some config_malformed
  check_decoded (trailing _) bd = some config_trailing
  check_decoded (one cfg) bd = if matches cfg bd then none else some config_mismatch

  unfoldable pub check_config : Option Bytes → BundleData → Option ApplyError
  check_config none bd = some config_missing
  check_config (some b) bd = check_decoded (host.decode_config b) bd

  unfoldable pub configure_of : BundleData → Configure
  unfolding environment_with_local_app_data local_app_data
  configure_of bd = record {
    name = bd.agent_name;
    url = bd.relay_url;
    fingerprint = bd.fingerprint;
    environ =
        environment_with_local_app_data host.equal_fold host.environ
          (local_app_data host.surroundings);
    stdin = bd.token;
  }

  -- From the run of configure-client to the commit.
  unfoldable pub configure_and_commit :
      String → BundleData → World S R → World S R × Option ApplyError
  unfolding configure_of check_config config_path
  configure_and_commit id bd w =
      let (r1, configured) = host.configure (configure_of bd) w.rest in
      let w1 : World S R = record w { rest = r1 } in
      let (s2, committed) = rs.commit id w.replays in
      if not configured
      then (w1, some configure_failed)
      else elim (check_config (host.read_file (config_path host.surroundings) r1) bd) [
        | some e ↦ (w1, some e)
        | none ↦ (record w1 { replays = s2 }, if committed then none else some commit_failed)
      ]

  -- The deferred release, or the clean-up.
  unfoldable pub settle :
      Paths → String → World S R × Option ApplyError → World S R × Option ApplyError
  unfolding best_effort_delete
  settle paths id (w, some e) = (record w { replays = (rs.release id w.replays).0 }, some e)
  settle paths id (w, none) = (
    record w { rest = best_effort_delete paths.key (best_effort_delete paths.bundle w.rest) },
    none,
  )

  unfoldable pub apply_validated :
      Paths → String → S × Result BundleData → R → World S R × Option ApplyError
  unfolding configure_and_commit settle
  apply_validated paths id (s, err e) r =
      (record { replays = s; rest = r }, some (validation_failed e))
  apply_validated paths id (s, ok bd) r =
      settle paths id (configure_and_commit id bd (record { replays = s; rest = r }))

  unfoldable pub apply_inputs :
      Paths
      → String
      → Time
      → World S R
      → Step (Inputs RsaPrivate SignPublic)
      → World S R × Option ApplyError
  unfolding apply_validated
  apply_inputs paths agent now w (failed e) = (w, some e)
  apply_inputs paths agent now w (done i) =
      let bootstrap =
        host.surroundings.join
          (host.surroundings.join (local_app_data host.surroundings) "ForgeGrid") "bootstrap" in
      let (r1, secured) = host.secure_directory bootstrap w.rest in
      if not secured
      then (record w { rest = r1 }, some directory_failed)
      else apply_validated paths i.bundle.bootstrap_id
          (validate_bootstrap_bundle c (some i.bundle) i.key i.signer agent (some rs) now w.replays)
          r1

  unfoldable pub decrypt_protected_and_apply :
      Paths → String → Time → World S R → World S R × Option ApplyError
  unfolding apply_inputs read_protected
  decrypt_protected_and_apply paths expected now w =
      apply_inputs paths host.hostname now w (read_protected paths expected w.rest)

  -- The expected fingerprint is not used, and the agent is a fixed one.
  unfoldable pub decrypt_and_apply :
      Paths → String → Time → World S R → World S R × Option ApplyError
  unfolding apply_inputs read_inputs
  decrypt_and_apply paths expected now w =
      apply_inputs paths "windows-test" now w (read_inputs paths w.rest)
