-- ===== src/Bootstrap/Crypto.antt =====
-- What bootstrap.go calls of Go's crypto, encoding and time packages, none of which the repository
-- holds, with the documented facts that the code relies on.
use forge_grid.Prelude.{◌≡◌, String, Bool, true, Option, some, length}
use forge_grid.Bridge.Models.{Time, Decoded, one}
use forge_grid.Bootstrap.Bytes.{Bytes}
use forge_grid.Bootstrap.Payload.{BundleData}

-- The types of RSA and Ed25519 keys are parameters.
pub record Crypto (RsaPublic RsaPrivate SignPublic SignPrivate : Type 0) : Type 0 where
  pub base64_encode : Bytes → String
  pub base64_decode : String → Option Bytes
  pub sha256_hex : Bytes → String
  pub marshal_public_key : RsaPublic → Option Bytes
  pub rsa_public : RsaPrivate → RsaPublic
  -- The first bytes are the randomness.
  pub encrypt_oaep : Bytes → RsaPublic → Bytes → Option Bytes
  pub decrypt_oaep : RsaPrivate → Bytes → Option Bytes
  -- aes.NewCipher with cipher.NewGCM: whether the key has a length that they take.
  pub is_aes_key : Bytes → Bool
  -- key, nonce, text, additional data
  pub seal : Bytes → Bytes → Bytes → Bytes → Bytes
  pub open_sealed : Bytes → Bytes → Bytes → Bytes → Option Bytes
  pub sign_public : SignPrivate → SignPublic
  pub sign_public_bytes : SignPublic → Bytes
  pub sign : SignPrivate → Bytes → Bytes
  pub verify : SignPublic → Bytes → Bytes → Bool
  pub marshal_bundle : BundleData → Option Bytes
  pub decode_bundle : Bytes → Decoded BundleData
  -- time.Parse with time.RFC3339, and hex.DecodeString as a test.
  pub parse_time : String → Option Time
  pub is_hex : String → Bool

-- What is documented of the packages.
pub record Laws {A B C D : Type 0} (c : Crypto A B C D) : Type 0 where
  pub base64_round_trip : (b : Bytes) → c.base64_decode (c.base64_encode b) ≡ some b
  pub oaep_round_trip :
      (random : Bytes) (key : B) (text ct : Bytes)
      → c.encrypt_oaep random (c.rsa_public key) text ≡ some ct
      → c.decrypt_oaep key ct ≡ some text
  pub seal_round_trip :
      (key nonce text aad : Bytes)
      → length nonce ≡ 12
      → c.open_sealed key nonce (c.seal key nonce text aad) aad ≡ some text
  pub signed : (key : D) (text : Bytes) → c.verify (c.sign_public key) text (c.sign key text) ≡ true
  pub bundle_round_trip :
      (bd : BundleData) (text : Bytes)
      → c.marshal_bundle bd ≡ some text
      → c.decode_bundle text ≡ one bd
