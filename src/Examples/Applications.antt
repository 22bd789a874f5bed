-- ===== src/Examples/Applications.antt =====
-- The commands of bootstrap-crypto on a machine whose files are three: the bundle, the keys, and the
-- configuration that the client has.
use forge_grid.Prelude.{
  ◌≡◌, ◌≢◌, ◌⊎◌, refl, none-ne-some, String, true, none, some, List, [], ◌∷◌, arith, eq_iff,
  eq_refl, ◌==◌,
}
use forge_grid.Dict.{Dict, lookup, insert, lookup-insert}
use forge_grid.Bridge.Models.{one}
use forge_grid.Bridge.Client.Commands.{ClientConfig, Surroundings}
use forge_grid.Bootstrap.Bytes.{Bytes, byte_len, utf8, encode_rune}
use forge_grid.Bootstrap.Bundle.{generate_signed_bootstrap_bundle, decrypt_bootstrap_bundle}
use forge_grid.Bootstrap.Validate.{
  check_outer, check_inner, open_bundle, finish, validate_checked, validate_bootstrap_bundle,
}
use forge_grid.Bootstrap.Apply.{
  done, Host, Inputs, Paths, World, check_config, read_inputs, read_protected, configure_and_commit,
  settle, apply_validated, apply_inputs, decrypt_protected_and_apply, decrypt_and_apply,
}
use forge_grid.Bootstrap.Apply.Applied.{IsApplied, decrypt_protected_and_apply_done}
use forge_grid.Bootstrap.Apply.Failed.{IsReleased, decrypt_and_apply_failed}
use forge_grid.Bootstrap.Apply.Once.{file_store, apply_inputs_once}
use forge_grid.Bootstrap.Encrypt.{
  Desk, EncryptPaths, read_public, read_signer, make_envelope, write_envelope, encrypt_bundle,
}
use forge_grid.Bootstrap.Encrypt.Written.{IsWritten, encrypt_bundle_done}
use forge_grid.Replay.{
  check_map, check_entries, load, reserve_change, commit_change, save_change, save_text,
  change_loaded, update, unlock, reserve, commit, File,
}
use forge_grid.Replay.Blob.{write_secure_blob}
use forge_grid.Replay.File.{missing}
use forge_grid.Replay.Single.{run_all}
use forge_grid.Examples.Bundles.{toy, toy-Laws, content, envelope, twelve, replays}
use forge_grid.Examples.Replays.{json, fine, releases}

abbrev env : Surroundings
env = record { goos = "linux"; getenv = λ name. ""; home = "/root"; join = λ a b. b }

abbrev config : ClientConfig
config = record {
  name = content.agent_name;
  token = content.token;
  url = content.relay_url;
  fingerprint = content.fingerprint;
}

-- A key of 32 bytes.
abbrev signer : Bytes
signer =
    0 ∷ 0 ∷ 0 ∷ 0 ∷ 0 ∷ 0 ∷ 0 ∷ 0 ∷ 0 ∷ 0 ∷ 0 ∷ 0 ∷ 0 ∷ 0 ∷ 0 ∷ 0 ∷ 0 ∷ 0 ∷ 0 ∷ 0 ∷ 0 ∷ 0 ∷ 0 ∷ 0
    ∷ 0 ∷ 0 ∷ 0 ∷ 0 ∷ 0 ∷ 0 ∷ 0 ∷ 0 ∷ []

abbrev host : Host (Unit {0}) (Unit {0}) (Unit {0})
host = record {
  read_file = λ p r. some signer;
  unprotect = λ b. some b;
  decode_pem = λ b. some b;
  parse_private = λ b. some tt;
  sign_public_of = λ b. tt;
  unmarshal_bundle = λ b. some envelope;
  secure_directory = λ p r. (r, true);
  configure = λ c r. (r, true);
  decode_config = λ b. one config;
  size_of = λ p r. some 3;
  write_zeroes = λ p n r. (r, true);
  remove = λ p r. (r, true);
  environ = "A=1" ∷ [];
  equal_fold = λ a b. a == b;
  surroundings = env;
  hostname = "bob";
}

abbrev paths : Paths
paths = record { key = "k"; bundle = "b"; signer = "s" }

abbrev before : World (List String) (Unit {0})
before = record { replays = []; rest = tt }

abbrev inputs : Inputs (Unit {0}) (Unit {0})
inputs = record { key = tt; signer = tt; bundle = envelope }

decrypt_protected_and_apply_done_example :
    (i : Inputs (Unit {0}) (Unit {0})) × (read_protected toy host replays paths "f" tt ≡ done i)
    × (i.bundle.signer_fingerprint ≡ "f")
    × IsApplied toy host replays "bob" 7 i before
        (decrypt_protected_and_apply toy host replays paths "f" 7 before).0
unfolding byte_len utf8 encode_rune validate_bootstrap_bundle validate_checked finish check_outer
    check_inner open_bundle decrypt_bootstrap_bundle decrypt_protected_and_apply read_protected
    apply_inputs apply_validated settle configure_and_commit check_config
decrypt_protected_and_apply_done_example =
    decrypt_protected_and_apply_done toy host replays paths "f" 7 before refl

decrypt_and_apply_failed_example :
    ((decrypt_and_apply toy host replays paths "f" 7 before).0.replays ≡ [])
    ⊎ ((i : Inputs (Unit {0}) (Unit {0})) × (read_inputs toy host replays paths tt ≡ done i)
        × IsReleased toy host replays i.bundle.bootstrap_id []
            (decrypt_and_apply toy host replays paths "f" 7 before).0.replays)
unfolding byte_len utf8 encode_rune validate_bootstrap_bundle validate_checked finish check_outer
    check_inner open_bundle decrypt_bootstrap_bundle decrypt_and_apply read_inputs apply_inputs
    apply_validated
decrypt_and_apply_failed_example =
    decrypt_and_apply_failed toy host replays paths "f" 7 before none-ne-some

abbrev fresh : World File (Unit {0})
fresh = record { replays = none; rest = tt }

apply_inputs_once_example :
    (apply_inputs toy host
      (file_store json 9 fine)
      paths
      "bob"
      9
      (record {
        replays =
            run_all json releases
              (apply_inputs toy host
                (file_store json 1 fine)
                paths
                "bob"
                1
                fresh
                (done inputs)).0.replays;
        rest = tt;
      })
      (done inputs)).1
    ≢ none
unfolding byte_len utf8 encode_rune validate_bootstrap_bundle validate_checked finish check_outer
    check_inner open_bundle decrypt_bootstrap_bundle apply_inputs apply_validated settle
    configure_and_commit check_config commit update change_loaded load check_map check_entries
    save_change save_text reserve reserve_change commit_change unlock write_secure_blob lookup
    insert
apply_inputs_once_example =
    apply_inputs_once toy host json paths paths "bob" "bob" 1 9 fine fine fresh inputs inputs []
      releases tt (λ e. ground (arith, e, eq_iff "b1" "")) (omega arith) missing refl (tt, tt) refl

abbrev signer_private : Bytes
signer_private =
    0 ∷ 0 ∷ 0 ∷ 0 ∷ 0 ∷ 0 ∷ 0 ∷ 0 ∷ 0 ∷ 0 ∷ 0 ∷ 0 ∷ 0 ∷ 0 ∷ 0 ∷ 0 ∷ 0 ∷ 0 ∷ 0 ∷ 0 ∷ 0 ∷ 0 ∷ 0 ∷ 0
    ∷ 0 ∷ 0 ∷ 0 ∷ 0 ∷ 0 ∷ 0 ∷ 0 ∷ 0 ∷ signer

abbrev desk : Desk (Dict Bytes) (Unit {0}) (Unit {0}) (Unit {0})
desk = record {
  read_file = lookup;
  write_file = λ p b r. (insert p b r, true);
  write_secure = λ p b r. (insert p b r, true);
  decode_pem = λ b. some b;
  encode_pem = λ type b. b;
  parse_public = λ b. some (some tt);
  marshal_private = λ k. [];
  protect = λ b. some b;
  sign_private_of = λ b. tt;
  unmarshal_data = λ b. some content;
  marshal_envelope = λ eb. some (5 ∷ []);
  write_file_done = λ p b r h. ground (arith, lookup-insert p p b r, eq_refl p);
}

abbrev files : Dict Bytes
files = ("public", []) ∷ ("signer", signer_private) ∷ ("plain", []) ∷ []

abbrev encrypt_paths : EncryptPaths
encrypt_paths = record { public_key = "public"; plain = "plain"; signer = "signer"; out = "out" }

encrypt_bundle_done_example :
    IsWritten toy desk tt encrypt_paths files
      (encrypt_bundle toy desk (some (2 ∷ [])) (some twelve) [] encrypt_paths files).0
unfolding encrypt_bundle make_envelope write_envelope read_public read_signer
    generate_signed_bootstrap_bundle lookup
encrypt_bundle_done_example =
    encrypt_bundle_done toy desk (some (2 ∷ [])) twelve [] encrypt_paths files tt toy-Laws refl refl
      refl
