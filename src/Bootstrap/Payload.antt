-- ===== src/Bootstrap/Payload.antt =====
-- The bytes that are signed: `ConstructSignedPayload` of internal/agentbridge/bootstrap.go.
use mathlib.Core.List.{append_assoc}
use forge_grid.Prelude.{◌%◌, ◌^◌, ◌<◌, ◌≡◌, refl, sym, ap, ◌∙◌, String, [], ◌++◌, arith, length}
use forge_grid.Bootstrap.Bytes.{Bytes, utf8, big_endian, big_endian_inj, utf8_inj, append_inj}

pub record BundleData : Type 0 where
  pub schema_version : String
  pub agent_name : String
  pub token : String
  pub relay_url : String
  pub fingerprint : String
  pub issued : String
  pub expiry : String
  pub bootstrap_id : String

pub record EncryptedBundle : Type 0 where
  pub schema_version : String
  pub bootstrap_id : String
  pub encrypted_aes_key : String
  pub nonce : String
  pub ciphertext : String
  pub signature_algorithm : String
  pub signer_fingerprint : String
  pub signature : String

-- A field: the number of its bytes as a uint32, then the bytes.
unfoldable pub write_field : String → Bytes
write_field s = big_endian (length (utf8 s) % 2 ^ 32) ++ utf8 s

unfoldable pub construct_signed_payload : EncryptedBundle → String → String → Bytes
unfolding write_field
construct_signed_payload eb agent_name recipient_fingerprint =
    write_field eb.schema_version
    ++ (write_field eb.bootstrap_id
        ++ (write_field agent_name
            ++ (write_field recipient_fingerprint
                ++ (write_field eb.encrypted_aes_key
                    ++ (write_field eb.nonce ++ write_field eb.ciphertext)))))

-- The length of the text fits its uint32.
abbrev pub IsShort : String → Type 0
IsShort s = length (utf8 s) < 2 ^ 32

write_field_inj :
    (s t : String) (a b : Bytes)
    → IsShort s
    → IsShort t
    → write_field s ++ a ≡ write_field t ++ b
    → (s ≡ t) × (a ≡ b)
unfolding write_field
write_field_inj s t a b hs ht h =
    let m = length (utf8 s) in
    let n = length (utf8 t) in
    let h' : big_endian (m % 2 ^ 32) ++ (utf8 s ++ a) ≡ big_endian (n % 2 ^ 32) ++ (utf8 t ++ b) =
      sym (append_assoc (big_endian (m % 2 ^ 32)) (utf8 s) a)
      ∙ h
      ∙ append_assoc (big_endian (n % 2 ^ 32)) (utf8 t) b in
    let (lengths, rest) =
      append_inj (big_endian (m % 2 ^ 32)) (big_endian (n % 2 ^ 32)) (utf8 s ++ a) (utf8 t ++ b)
        (unfold big_endian in refl) h' in
    let same : m ≡ n =
      omega (arith, big_endian_inj (m % 2 ^ 32) (n % 2 ^ 32) (omega arith) (omega arith) lengths) in
    let (bytes, after) = append_inj (utf8 s) (utf8 t) a b same rest in (utf8_inj s t bytes, after)

-- All fields of the payload that the signature covers fit their length words.
pub record IsEncodable (eb : EncryptedBundle) (a r : String) : Type 0 where
  pub schema_version : IsShort eb.schema_version
  pub bootstrap_id : IsShort eb.bootstrap_id
  pub agent_name : IsShort a
  pub recipient : IsShort r
  pub encrypted_aes_key : IsShort eb.encrypted_aes_key
  pub nonce : IsShort eb.nonce
  pub ciphertext : IsShort eb.ciphertext

-- What a signature binds.
pub record SameSigned (eb eb' : EncryptedBundle) (a a' r r' : String) : Type 0 where
  pub schema_version : eb.schema_version ≡ eb'.schema_version
  pub bootstrap_id : eb.bootstrap_id ≡ eb'.bootstrap_id
  pub agent_name : a ≡ a'
  pub recipient : r ≡ r'
  pub encrypted_aes_key : eb.encrypted_aes_key ≡ eb'.encrypted_aes_key
  pub nonce : eb.nonce ≡ eb'.nonce
  pub ciphertext : eb.ciphertext ≡ eb'.ciphertext

-- Two bundles with the same signed bytes, each of whose fields has fewer than 2^32 bytes, agree in
-- every field that is signed, in the agent and in the recipient: no field runs over into the next.
pub construct_signed_payload_inj :
    (eb eb' : EncryptedBundle) (a a' r r' : String)
    → IsEncodable eb a r
    → IsEncodable eb' a' r'
    → construct_signed_payload eb a r ≡ construct_signed_payload eb' a' r'
    → SameSigned eb eb' a a' r r'
unfolding construct_signed_payload
construct_signed_payload_inj eb eb' a a' r r' h h' e =
    let (e1, t1) =
      write_field_inj eb.schema_version eb'.schema_version _ _ h.schema_version h'.schema_version
        e in
    let (e2, t2) =
      write_field_inj eb.bootstrap_id eb'.bootstrap_id _ _ h.bootstrap_id h'.bootstrap_id t1 in
    let (e3, t3) = write_field_inj a a' _ _ h.agent_name h'.agent_name t2 in
    let (e4, t4) = write_field_inj r r' _ _ h.recipient h'.recipient t3 in
    let (e5, t5) =
      write_field_inj eb.encrypted_aes_key eb'.encrypted_aes_key _ _ h.encrypted_aes_key
        h'.encrypted_aes_key t4 in
    let (e6, t6) = write_field_inj eb.nonce eb'.nonce _ _ h.nonce h'.nonce t5 in
    let (e7, _) =
      write_field_inj eb.ciphertext eb'.ciphertext [] [] h.ciphertext h'.ciphertext
        (ap (λ (b : Bytes). b ++ []) t6) in
    record {
      schema_version = e1;
      bootstrap_id = e2;
      agent_name = e3;
      recipient = e4;
      encrypted_aes_key = e5;
      nonce = e6;
      ciphertext = e7;
    }
