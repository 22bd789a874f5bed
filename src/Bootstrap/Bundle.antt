-- ===== src/Bootstrap/Bundle.antt =====
-- `getAAD`, `GenerateSignedBootstrapBundle` and `DecryptBootstrapBundle`.
pub mod Laws
use Prim.Native.String.{◌++◌}
use forge_grid.Prelude.{
  ℕ, String, Bool, true, false, Option, none, some, not, if◌then◌else◌, length, nat_eq, ◌≡◌, refl,
}
use forge_grid.Bridge.Models.{Decoded, malformed, one, trailing}
use forge_grid.Bootstrap.Bytes.{Bytes, utf8}
use forge_grid.Bootstrap.Payload.{BundleData, EncryptedBundle, construct_signed_payload}
use forge_grid.Bootstrap.Crypto.{Crypto}

-- The errors, and the panic of cipher.AEAD at a nonce whose length is not 12.
pub data BundleError : Type 0 where
  nil_bundle nil_replay_store : BundleError
  outer_version signature_algorithm signer_mismatch signature_encoding : BundleError
  recipient_key invalid_signature reserve_failed : BundleError
  key_encoding nonce_encoding ciphertext_encoding : BundleError
  key_decryption aes_key text_decryption bundle_json trailing_json : BundleError
  inner_version id_mismatch agent_mismatch : BundleError
  fingerprint_length fingerprint_hex missing_fields : BundleError
  issued_format expiry_format issued_in_future expiry_order expired : BundleError
  generation : BundleError
  panic : BundleError

pub data Result (A : Type 0) : Type 0 where
  ok : A → Result A
  err : BundleError → Result A

infixl 5 ◌>>=◌ ◌>>◌
abbrev pub ◌>>=◌ : {A B : Type 0} → Result A → (A → Result B) → Result B
ok a >>= f = f a
err e >>= f = err e

abbrev pub ◌>>◌ : {B : Type 0} → Result (Unit {0}) → Result B → Result B
m >> k = m >>= λ _. k

-- An error where the call returned none.
abbrev pub or_fail : {A : Type 0} → BundleError → Option A → Result A
or_fail e none = err e
or_fail e (some a) = ok a

abbrev pub require : Bool → BundleError → Result (Unit {0})
require true e = ok tt
require false e = err e

abbrev pub one_value : Decoded BundleData → Result BundleData
one_value (malformed _) = err bundle_json
one_value (trailing _) = err trailing_json
one_value (one bd) = ok bd

unfoldable pub get_aad : String → String → Bytes
get_aad schema_version bootstrap_id = utf8 (schema_version ++ ("|" ++ bootstrap_id))

module _ {RsaPublic RsaPrivate SignPublic SignPrivate : Type 0}
    (c : Crypto RsaPublic RsaPrivate SignPublic SignPrivate) where
  -- The bundle before it is signed.
  abbrev pub unsigned : BundleData → Bytes → Bytes → Bytes → Bytes → EncryptedBundle
  unsigned bd aes_key' nonce text enc_key = record {
    schema_version = bd.schema_version;
    bootstrap_id = bd.bootstrap_id;
    encrypted_aes_key = c.base64_encode enc_key;
    nonce = c.base64_encode nonce;
    ciphertext =
        c.base64_encode (c.seal aes_key' nonce text (get_aad bd.schema_version bd.bootstrap_id));
    signature_algorithm = "";
    signer_fingerprint = "";
    signature = "";
  }

  -- The error of MarshalPKIXPublicKey is dropped: the hash is then that of no bytes.
  abbrev pub key_bytes : Option Bytes → Bytes
  key_bytes none = utf8 ""
  key_bytes (some b) = b

  unfoldable pub fingerprint_of : RsaPublic → String
  fingerprint_of pub_key = c.sha256_hex (key_bytes (c.marshal_public_key pub_key))

  abbrev pub sign_bundle : SignPrivate → String → String → EncryptedBundle → EncryptedBundle
  sign_bundle sign_key agent recipient eb = record eb {
    signature_algorithm = "ed25519";
    signer_fingerprint = c.sha256_hex (c.sign_public_bytes (c.sign_public sign_key));
    signature = c.base64_encode (c.sign sign_key (construct_signed_payload eb agent recipient));
  }

  -- The key and the nonce are what rand.Read returned, if it did.
  unfoldable pub generate_signed_bootstrap_bundle :
      Option Bytes
      → Option Bytes
      → Bytes
      → RsaPublic
      → SignPrivate
      → BundleData
      → Result EncryptedBundle
  unfolding fingerprint_of
  generate_signed_bootstrap_bundle new_key new_nonce random pub_key sign_key bd = do
    text ← or_fail generation (c.marshal_bundle bd)
    aes_key' ← or_fail generation new_key
    nonce ← or_fail generation new_nonce
    require (c.is_aes_key aes_key') generation
    enc_key ← or_fail generation (c.encrypt_oaep random pub_key aes_key')
    ok (
        sign_bundle sign_key bd.agent_name (fingerprint_of pub_key)
          (unsigned bd aes_key' nonce text enc_key))

  unfoldable pub decrypt_bootstrap_bundle : Option EncryptedBundle → RsaPrivate → Result BundleData
  decrypt_bootstrap_bundle given key = do
    eb ← or_fail nil_bundle given
    enc_key ← or_fail key_encoding (c.base64_decode eb.encrypted_aes_key)
    nonce ← or_fail nonce_encoding (c.base64_decode eb.nonce)
    ct ← or_fail ciphertext_encoding (c.base64_decode eb.ciphertext)
    aes_key' ← or_fail key_decryption (c.decrypt_oaep key enc_key)
    require (c.is_aes_key aes_key') aes_key
    require (nat_eq (length nonce) 12) panic
    text ←
        or_fail text_decryption
          (c.open_sealed aes_key' nonce ct (get_aad eb.schema_version eb.bootstrap_id))
    one_value (c.decode_bundle text)
