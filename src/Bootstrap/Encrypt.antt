-- ===== src/Bootstrap/Encrypt.antt =====
-- `generateKeys`, `generateProtectedKeys` and `encryptBundle` of
-- .agents/scripts/bootstrap-crypto/main.go. An error that ends the program is a value.
pub mod Written
use forge_grid.Prelude.{
  ℕ, String, Bool, true, false, Option, none, some, not, nat_eq, length, if◌then◌else◌, ◌≡◌,
}
use forge_grid.Bootstrap.Bytes.{Bytes, utf8}
use forge_grid.Bootstrap.Payload.{BundleData, EncryptedBundle}
use forge_grid.Bootstrap.Crypto.{Crypto}
use forge_grid.Bootstrap.Bundle.{Result, ok, err, generate_signed_bootstrap_bundle}

pub data EncryptError : Type 0 where
  public_unread no_public_block bad_public not_rsa : EncryptError
  signer_unread no_signer_block bad_signer_size : EncryptError
  plain_unread plain_malformed not_generated not_marshalled unwritten : EncryptError
  no_key unprotected private_unwritten public_unmarshalled public_unwritten : EncryptError

pub data Outcome (A : Type 0) : Type 0 where
  done : A → Outcome A
  failed : EncryptError → Outcome A

infixl 5 ◌>>=◌ ◌>>◌
abbrev pub ◌>>=◌ : {A B : Type 0} → Outcome A → (A → Outcome B) → Outcome B
done a >>= f = f a
failed e >>= f = failed e

abbrev pub ◌>>◌ : {B : Type 0} → Outcome (Unit {0}) → Outcome B → Outcome B
m >> k = m >>= λ _. k

abbrev pub or_fail : {A : Type 0} → EncryptError → Option A → Outcome A
or_fail e none = failed e
or_fail e (some a) = done a

abbrev pub require : Bool → EncryptError → Outcome (Unit {0})
require true e = done tt
require false e = failed e

-- Packages os, encoding/pem, crypto/x509 and encoding/json, and the protection of the key.
pub record Desk (R RsaPublic RsaPrivate SignPrivate : Type 0) : Type 0 where
  pub read_file : String → R → Option Bytes
  pub write_file : String → Bytes → R → R × Bool
  pub write_secure : String → Bytes → R → R × Bool
  pub decode_pem : Bytes → Option Bytes
  pub encode_pem : String → Bytes → Bytes
  -- ParsePKIXPublicKey: an error, a key of another kind, or an RSA key.
  pub parse_public : Bytes → Option (Option RsaPublic)
  pub marshal_private : RsaPrivate → Bytes
  pub protect : Bytes → Option Bytes
  pub sign_private_of : Bytes → SignPrivate
  pub unmarshal_data : Bytes → Option BundleData
  pub marshal_envelope : EncryptedBundle → Option Bytes
  pub write_file_done :
      (p : String) (b : Bytes) (r : R)
      → (write_file p b r).1 ≡ true
      → read_file p (write_file p b r).0 ≡ some b

-- The paths of the arguments.
pub record EncryptPaths : Type 0 where
  pub public_key : String
  pub plain : String
  pub signer : String
  pub out : String

abbrev made : Result EncryptedBundle → Outcome EncryptedBundle
made (ok eb) = done eb
made (err e) = failed not_generated

module _ {RsaPublic RsaPrivate SignPublic SignPrivate R : Type 0}
    (c : Crypto RsaPublic RsaPrivate SignPublic SignPrivate)
    (desk : Desk R RsaPublic RsaPrivate SignPrivate) where
  -- The public key, the signer's key and the content.
  unfoldable pub read_public : Option Bytes → Outcome RsaPublic
  read_public file = do
    pem ← or_fail public_unread file
    block ← or_fail no_public_block (desk.decode_pem pem)
    parsed ← or_fail bad_public (desk.parse_public block)
    or_fail not_rsa parsed

  unfoldable pub read_signer : Option Bytes → Outcome SignPrivate
  read_signer file = do
    pem ← or_fail signer_unread file
    block ← or_fail no_signer_block (desk.decode_pem pem)
    require (nat_eq (length block) 64) bad_signer_size
    done (desk.sign_private_of block)

  -- The key, the nonce and the randomness are those of GenerateSignedBootstrapBundle.
  unfoldable pub make_envelope :
      Option Bytes → Option Bytes → Bytes → EncryptPaths → R → Outcome EncryptedBundle
  unfolding read_public read_signer
  make_envelope new_key new_nonce random paths r = do
    public_key ← read_public (desk.read_file paths.public_key r)
    signer ← read_signer (desk.read_file paths.signer r)
    plain ← or_fail plain_unread (desk.read_file paths.plain r)
    bd ← or_fail plain_malformed (desk.unmarshal_data plain)
    made (generate_signed_bootstrap_bundle c new_key new_nonce random public_key signer bd)

  unfoldable pub write_envelope : String → Outcome EncryptedBundle → R → R × Option EncryptError
  write_envelope out (failed e) r = (r, some e)
  write_envelope out (done eb) r = elim (desk.marshal_envelope eb) [
    | none ↦ (r, some not_marshalled)
    | some text ↦
        let (r', written) = desk.write_file out text r in
        (r', if written then none else some unwritten)
  ]

  unfoldable pub encrypt_bundle :
      Option Bytes → Option Bytes → Bytes → EncryptPaths → R → R × Option EncryptError
  unfolding make_envelope write_envelope
  encrypt_bundle new_key new_nonce random paths r =
      write_envelope paths.out (make_envelope new_key new_nonce random paths r) r

  abbrev private_pem : RsaPrivate → Bytes
  private_pem key = desk.encode_pem "RSA PRIVATE KEY" (desk.marshal_private key)

  -- The part of both key generators behind the private key: the fingerprint that is printed.
  unfoldable pub write_public : String → RsaPrivate → R → R × Outcome String
  write_public pub_path key r = elim (c.marshal_public_key (c.rsa_public key)) [
    | none ↦ (r, failed public_unmarshalled)
    | some b ↦
        let (r', written) = desk.write_file pub_path (desk.encode_pem "PUBLIC KEY" b) r in
        (r', if written then done (c.sha256_hex b) else failed public_unwritten)
  ]

  -- The key is what GenerateKey gave.
  unfoldable pub generate_keys : String → String → Option RsaPrivate → R → R × Outcome String
  unfolding write_public
  generate_keys priv_path pub_path none r = (r, failed no_key)
  generate_keys priv_path pub_path (some key) r =
      let (r', written) = desk.write_file priv_path (private_pem key) r in
      if not written then (r', failed private_unwritten) else write_public pub_path key r'

  unfoldable pub generate_protected_keys :
      String → String → Option RsaPrivate → R → R × Outcome String
  unfolding write_public
  generate_protected_keys priv_path pub_path none r = (r, failed no_key)
  generate_protected_keys priv_path pub_path (some key) r = elim (desk.protect (private_pem key)) [
    | none ↦ (r, failed unprotected)
    | some blob ↦
        let (r', written) = desk.write_secure priv_path blob r in
        if not written then (r', failed private_unwritten) else write_public pub_path key r'
  ]
