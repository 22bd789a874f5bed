-- ===== src/Examples/Bundles.antt =====
-- Bundles with a toy codec that meets the laws: a byte is a row of "a" that ends in "b", nothing is
-- encrypted, and one bundle can be marshalled.
use forge_grid.Prelude.{
  ℕ, zero, suc, ◌+◌, ◌≡◌, refl, sym, ap, ◌∙◌, ◌⊎◌, inl, inr, String, Bool, true, false, none, some,
  arith, eq_iff, List, [], ◌∷◌, Bool-cases, ◌==◌, ◌&&◌, nat_eq, if◌then◌else◌, code,
}
use forge_grid.Bridge.Models.{one}
use forge_grid.Bootstrap.Bytes.{Bytes, byte_len, utf8, encode_rune}
use forge_grid.Bootstrap.Payload.{
  BundleData, EncryptedBundle, SameSigned, IsEncodable, construct_signed_payload_inj,
}
use forge_grid.Bootstrap.Crypto.{Crypto, Laws}
use forge_grid.Bootstrap.Bundle.{ok, expired, decrypt_bootstrap_bundle}
use forge_grid.Bootstrap.Validate.{
  ReplayStore, check_outer, check_inner, open_bundle, finish, validate_checked,
  validate_bootstrap_bundle,
}
use forge_grid.Bootstrap.Validate.Accepted.{IsSigned, IsCurrent, validate_accepted}
use forge_grid.Bootstrap.Validate.Reservation.{validate_refused}

abbrev pub row : ℕ → String → String
row zero rest = String.◌∷◌ "b" rest
row (suc n) rest = String.◌∷◌ "a" (row n rest)

abbrev pub encode : Bytes → String
encode [] = ""
encode (n ∷ ns) = row n (encode ns)

abbrev pub decode : ℕ → String → Bytes
decode n String.[] = []
decode n (String.◌∷◌ c s) =
    let longer = decode (suc n) s in
    let next = decode 0 s in if nat_eq (code c) b'a' then longer else n ∷ next

pub decode-row : (n m : ℕ) (s : String) → decode n (row m s) ≡ (n + m) ∷ decode 0 s
decode-row n zero s = ap (λ (k : ℕ). k ∷ decode 0 s) (omega arith)
decode-row n (suc m) s = decode-row (suc n) m s ∙ ap (λ (k : ℕ). k ∷ decode 0 s) (omega arith)

decode-encode : (b : Bytes) → decode 0 (encode b) ≡ b
decode-encode [] = refl
decode-encode (n ∷ ns) =
    decode-row 0 n (encode ns)
    ∙ ap (λ (k : ℕ). k ∷ decode 0 (encode ns)) (omega arith)
    ∙ ap (λ (l : Bytes). n ∷ l) (decode-encode ns)

abbrev pub hex_digits : String
hex_digits = "0123456789abcdef0123456789abcdef0123456789abcdef0123456789abcdef"

abbrev pub content : BundleData
content = record {
  schema_version = "1";
  agent_name = "bob";
  token = "t";
  relay_url = "https://relay";
  fingerprint = hex_digits;
  issued = "5";
  expiry = "10";
  bootstrap_id = "b1";
}

abbrev pub is_content : BundleData → Bool
is_content bd =
    bd.schema_version == "1"
    && (bd.agent_name == "bob"
        && (bd.token == "t"
            && (bd.relay_url == "https://relay"
                && (bd.fingerprint == hex_digits
                    && (bd.issued == "5" && (bd.expiry == "10" && bd.bootstrap_id == "b1"))))))

pub is_content_sound : (bd : BundleData) → is_content bd ≡ true → content ≡ bd
is_content_sound bd h = ground (
  arith,
  h,
  eq_iff bd.schema_version "1",
  eq_iff bd.agent_name "bob",
  eq_iff bd.token "t",
  eq_iff bd.relay_url "https://relay",
  eq_iff bd.fingerprint hex_digits,
  eq_iff bd.issued "5",
  eq_iff bd.expiry "10",
  eq_iff bd.bootstrap_id "b1",
)

abbrev pub toy : Crypto (Unit {0}) (Unit {0}) (Unit {0}) (Unit {0})
toy = record {
  base64_encode = encode;
  base64_decode = λ s. some (decode 0 s);
  sha256_hex = λ b. "f";
  marshal_public_key = λ k. some [];
  rsa_public = λ k. tt;
  encrypt_oaep = λ random k text. some text;
  decrypt_oaep = λ k ct. some ct;
  is_aes_key = λ k. true;
  seal = λ k n text aad. text;
  open_sealed = λ k n ct aad. some ct;
  sign_public = λ k. tt;
  sign_public_bytes = λ k. [];
  sign = λ k text. [];
  verify = λ k text mark. true;
  marshal_bundle = λ bd. if is_content bd then some (7 ∷ []) else none;
  decode_bundle = λ text. one content;
  parse_time = λ s. if s == "5" then some 5 else some 10;
  is_hex = λ s. true;
}

pub toy-Laws : Laws toy
toy-Laws = record {
  base64_round_trip = λ b. ap some (decode-encode b);
  oaep_round_trip = λ random k text ct h. sym h;
  seal_round_trip = λ k n text aad h. refl;
  signed = λ k text. refl;
  bundle_round_trip = λ bd text h. elim (Bool-cases (is_content bd)) [
    | inl same ↦ ap one (is_content_sound bd same)
    | inr other ↦ absurd (ground (arith, other, h))
  ];
}

abbrev pub twelve : Bytes
twelve = 0 ∷ 0 ∷ 0 ∷ 0 ∷ 0 ∷ 0 ∷ 0 ∷ 0 ∷ 0 ∷ 0 ∷ 0 ∷ 0 ∷ []

abbrev pub envelope : EncryptedBundle
envelope = record {
  schema_version = "1";
  bootstrap_id = "b1";
  encrypted_aes_key = "aab";
  nonce = "bbbbbbbbbbbb";
  ciphertext = "aaaaaaab";
  signature_algorithm = "ed25519";
  signer_fingerprint = "f";
  signature = "";
}

-- The store is the list of the ids that are reserved.
abbrev pub replays : ReplayStore (List String)
replays = record {
  reserve = λ id s. (id ∷ s, true);
  commit = λ id s. (s, true);
  release = λ id s. ([], true);
}

validate_accepted_example :
    IsSigned toy envelope tt tt "bob"
    × (decrypt_bootstrap_bundle toy (some envelope) tt ≡ ok content)
    × IsCurrent toy envelope "bob" 7 content
    × (◌≡◌ {A = Bool} true true)
    × ((validate_bootstrap_bundle toy (some envelope) tt tt "bob" (some replays) 7 []).0
        ≡ "b1" ∷ [])
unfolding byte_len utf8 encode_rune validate_bootstrap_bundle validate_checked finish check_outer
    check_inner open_bundle decrypt_bootstrap_bundle
validate_accepted_example = validate_accepted toy envelope tt tt "bob" replays 7 [] content refl

validate_refused_example :
    ((validate_bootstrap_bundle toy (some envelope) tt tt "bob" (some replays) 99 []).0 ≡ [])
    ⊎ ((◌≡◌ {A = Bool} true false)
        × ((validate_bootstrap_bundle toy (some envelope) tt tt "bob" (some replays) 99 []).0
            ≡ "b1" ∷ []))
    ⊎ ((◌≡◌ {A = Bool} true true)
        × ((validate_bootstrap_bundle toy (some envelope) tt tt "bob" (some replays) 99 []).0 ≡ []))
unfolding byte_len utf8 encode_rune validate_bootstrap_bundle validate_checked finish check_outer
    check_inner open_bundle decrypt_bootstrap_bundle
validate_refused_example = validate_refused toy envelope tt tt "bob" replays 99 [] expired refl

envelope_IsEncodable : IsEncodable envelope "bob" "f"
unfolding utf8 encode_rune
envelope_IsEncodable = record {
  schema_version = omega arith;
  bootstrap_id = omega arith;
  agent_name = omega arith;
  recipient = omega arith;
  encrypted_aes_key = omega arith;
  nonce = omega arith;
  ciphertext = omega arith;
}

construct_signed_payload_inj_example : SameSigned envelope envelope "bob" "bob" "f" "f"
construct_signed_payload_inj_example =
    construct_signed_payload_inj envelope envelope "bob" "bob" "f" "f" envelope_IsEncodable
      envelope_IsEncodable refl
