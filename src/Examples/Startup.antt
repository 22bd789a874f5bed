-- ===== src/Examples/Startup.antt =====
-- Certificates that are made once, and the parts of a worker that need no coordinator.
use forge_grid.Prelude.{
  ◌≡◌, ◌≤◌, ◌+◌, refl, true, none, some, [], ◌∷◌, arith, eq_iff, eq_refl, length,
}
use forge_grid.Bootstrap.Bytes.{Bytes}
use forge_grid.Dict.{Dict, lookup, insert, lookup-insert}
use forge_grid.Network.{Pki, generate_self_signed_cert}
use forge_grid.Bridge.Client.Commands.Keys.{
  KeyFiles, keys, store_keys, get_tls_keys, get_tls_keys_stable,
}
use forge_grid.Coordinator.Start.{ensure_identity, keep_cert, ensure_cert, start, start_stable}
use forge_grid.Coordinator.Store.{save}
use forge_grid.Coordinator.Jobs.{cancel_job, update_job}
use forge_grid.Coordinator.Jobs.Update.{cancel_job_overwritten}
use forge_grid.Execution.{add_logs, Paths}
use forge_grid.Execution.Logs.{shortened, add_logs_exact}
use forge_grid.Examples.Coordinators.{libs, store, update, trial}

abbrev pub pki : Pki (Unit {0})
pki = record {
  marshal_key = λ k. some (2 ∷ []);
  create_certificate = λ k serial. some serial;
  encode_pem = λ type b. 1 ∷ b;
  decode_pem = λ b. elim b [ [] ↦ none | x ∷ rest ↦ some rest ];
  sha256_hex = λ b. "f";
  pem_round_trip = λ type b. refl;
}

abbrev key_files : KeyFiles (Dict Bytes)
key_files = record {
  read_file = lookup;
  write_file = λ p b d. (insert p b d, true);
  remove = λ p d. d;
  write_file_done = λ p b d h. ground (arith, lookup-insert p p b d, eq_refl p);
  write_file_other = λ p q b d h. ground (arith, lookup-insert p q b d, eq_iff p q);
}

get_tls_keys_stable_example :
    get_tls_keys key_files pki none none (get_tls_keys key_files pki (some tt) (some (3 ∷ [])) []).0
    ≡ ((get_tls_keys key_files pki (some tt) (some (3 ∷ [])) []).0, keys "f")
unfolding get_tls_keys store_keys generate_self_signed_cert lookup insert
get_tls_keys_stable_example =
    get_tls_keys_stable key_files pki (some tt) none (some (3 ∷ [])) none "f" [] refl

start_stable_example :
    start libs pki 9 none none (start libs pki 8 (some tt) (some (3 ∷ [])) store).0
    ≡ ((start libs pki 8 (some tt) (some (3 ∷ [])) store).0, some "f")
unfolding start ensure_identity ensure_cert keep_cert generate_self_signed_cert save
start_stable_example =
    start_stable libs pki 8 9 (some tt) none (some (3 ∷ [])) none "f" store (λ type b. ground arith)
      refl

cancel_job_overwritten_example :
    ((update_job (λ s. s) update 6 (cancel_job 5 trial)).status
      ≡ (update_job (λ s. s) update 6 trial).status)
    × ((update_job (λ s. s) update 6 (cancel_job 5 trial)).result
        ≡ (update_job (λ s. s) update 6 trial).result)
cancel_job_overwritten_example = cancel_job_overwritten (λ s. s) update 6 5 trial

add_logs_exact_example :
    (add_logs 2 ("a" ∷ "b" ∷ "c" ∷ []) [] ≡ shortened 2 ("a" ∷ "b" ∷ "c" ∷ []))
    × (length (add_logs 2 ("a" ∷ "b" ∷ "c" ∷ []) []) ≤ 2 + 1)
add_logs_exact_example = add_logs_exact 2 ("a" ∷ "b" ∷ "c" ∷ [])

abbrev pub plain_paths : Paths
plain_paths = record {
  abs = λ p. some p;
  eval_symlinks = λ p. some p;
  join = λ a b. b;
  clean = λ p. p;
  to_lower = λ p. p;
  separator = "/";
}
