-- ===== src/Network.antt =====
-- internal/network/tls.go: the self-signed certificate, its fingerprint and the pin of the clients.
pub mod Pinned
use forge_grid.Prelude.{
  ◌≡◌, String, Bool, true, false, Option, none, some, List, [], ◌∷◌, ◌==◌, ◌>>=◌, if◌then◌else◌,
}
use forge_grid.Bootstrap.Bytes.{Bytes}

-- What tls.go calls of Go's crypto and encoding packages. A certificate is its DER bytes.
pub record Pki (Key : Type 0) : Type 0 where
  pub marshal_key : Key → Option Bytes
  -- The key that signs, and the serial number.
  pub create_certificate : Key → Bytes → Option Bytes
  -- The block's type and its bytes.
  pub encode_pem : String → Bytes → Bytes
  pub decode_pem : Bytes → Option Bytes
  pub sha256_hex : Bytes → String
  pub pem_round_trip : (type : String) (b : Bytes) → decode_pem (encode_pem type b) ≡ some b

pub record Certificate : Type 0 where
  pub cert_pem : Bytes
  pub key_pem : Bytes
  pub fingerprint : String

pub data PinError : Type 0 where
  no_certificates : PinError
  -- What was expected, and what the peer has.
  fingerprint_mismatch : String → String → PinError

module _ {Key : Type 0} (pki : Pki Key) where
  -- GenerateSelfSignedCert: the key and the serial number are what the random source gave, if it did.
  unfoldable pub generate_self_signed_cert : Option Key → Option Bytes → Option Certificate
  generate_self_signed_cert new_key new_serial = do
    key ← new_key
    serial ← new_serial
    der ← pki.create_certificate key serial
    key_bytes ← pki.marshal_key key
    some (record {
      cert_pem = pki.encode_pem "CERTIFICATE" der;
      key_pem = pki.encode_pem "EC PRIVATE KEY" key_bytes;
      fingerprint = pki.sha256_hex der;
    })

  unfoldable pub fingerprint_from_pem : Bytes → Option String
  fingerprint_from_pem cert_pem = elim (pki.decode_pem cert_pem) [
    | none ↦ none
    | some der ↦ some (pki.sha256_hex der)
  ]

  -- VerifyConnection of PinTLSConfig, on the certificates of the peer: the error, if any.
  unfoldable pub verify_connection : String → List Bytes → Option PinError
  verify_connection fingerprint [] = some no_certificates
  verify_connection fingerprint (der ∷ more) =
      if pki.sha256_hex der == fingerprint
      then none
      else some (fingerprint_mismatch fingerprint (pki.sha256_hex der))
