-- ===== src/Bootstrap/Validate.antt =====
-- `ValidateBootstrapBundle` of internal/agentbridge/bootstrap.go, over any ReplayStore.
pub mod Accepted
pub mod Reservation
pub mod RoundTrip
use forge_grid.Prelude.{
  ℕ, ◌+◌, ◌*◌, ◌^◌, String, Bool, true, false, Option, none, some, not, ◌||◌, ◌==◌, ltb, nat_eq,
  if◌then◌else◌, ◌≡◌,
}
use forge_grid.Bridge.Models.{Time}
use forge_grid.Bootstrap.Bytes.{Bytes, byte_len}
use forge_grid.Bootstrap.Payload.{BundleData, EncryptedBundle, construct_signed_payload}
use forge_grid.Bootstrap.Crypto.{Crypto}
use forge_grid.Bootstrap.Bundle.{
  BundleError, nil_bundle, nil_replay_store, outer_version, signature_algorithm, signer_mismatch,
  signature_encoding, recipient_key, invalid_signature, reserve_failed, inner_version, id_mismatch,
  agent_mismatch, fingerprint_length, fingerprint_hex, missing_fields, issued_format, expiry_format,
  issued_in_future, expiry_order, expired, Result, ok, err, ◌>>=◌, ◌>>◌, or_fail, require,
  decrypt_bootstrap_bundle,
}

-- The interface ReplayStore over a state; the Boolean says that the call returned no error.
pub record ReplayStore (S : Type 0) : Type 0 where
  pub reserve : String → S → S × Bool
  pub commit : String → S → S × Bool
  pub release : String → S → S × Bool

-- 5 * time.Minute
abbrev pub clock_skew : Time
clock_skew = 5 * 60 * 10 ^ 9

module _ {RsaPublic RsaPrivate SignPublic SignPrivate : Type 0}
    (c : Crypto RsaPublic RsaPrivate SignPublic SignPrivate) where
  -- The checks before the id is reserved.
  unfoldable pub check_outer :
      EncryptedBundle → RsaPrivate → SignPublic → String → Result (Unit {0})
  check_outer eb key signer agent = do
    require (eb.schema_version == "1") outer_version
    require (eb.signature_algorithm == "ed25519") signature_algorithm
    require (eb.signer_fingerprint == c.sha256_hex (c.sign_public_bytes signer)) signer_mismatch
    signature ← or_fail signature_encoding (c.base64_decode eb.signature)
    pub_bytes ← or_fail recipient_key (c.marshal_public_key (c.rsa_public key))
    require (c.verify signer (construct_signed_payload eb agent (c.sha256_hex pub_bytes)) signature)
        invalid_signature

  abbrev pub has_empty_field : BundleData → Bool
  has_empty_field bd =
      bd.token == ""
      || (bd.relay_url == ""
          || (bd.issued == ""
              || (bd.expiry == ""
                  || (bd.bootstrap_id == "" || (bd.agent_name == "" || bd.schema_version == "")))))

  -- The checks on the decrypted bundle.
  unfoldable pub check_inner : EncryptedBundle → String → Time → BundleData → Result BundleData
  check_inner eb agent now bd = do
    require (bd.schema_version == "1") inner_version
    require (bd.bootstrap_id == eb.bootstrap_id) id_mismatch
    require (bd.agent_name == agent) agent_mismatch
    require (nat_eq (byte_len bd.fingerprint) 64) fingerprint_length
    require (c.is_hex bd.fingerprint) fingerprint_hex
    require (not (has_empty_field bd)) missing_fields
    issued ← or_fail issued_format (c.parse_time bd.issued)
    expiry ← or_fail expiry_format (c.parse_time bd.expiry)
    require (not (ltb (now + clock_skew) issued)) issued_in_future
    require (ltb issued expiry) expiry_order
    require (not (ltb expiry now)) expired
    ok bd

  -- What runs while the id is reserved.
  unfoldable pub open_bundle : EncryptedBundle → RsaPrivate → String → Time → Result BundleData
  open_bundle eb key agent now = do
    bd ← decrypt_bootstrap_bundle c (some eb) key
    check_inner eb agent now bd

  module _ {S : Type 0} where
    -- The deferred release, at an error or a panic.
    unfoldable pub finish : ReplayStore S → String → S → Result BundleData → S × Result BundleData
    finish rs id s (ok bd) = (s, ok bd)
    finish rs id s (err e) = ((rs.release id s).0, err e)

    unfoldable pub validate_checked :
        ReplayStore S
        → EncryptedBundle
        → RsaPrivate
        → String
        → Time
        → S
        → Result (Unit {0})
        → S × Result BundleData
    unfolding finish
    validate_checked rs eb key agent now s (err e) = (s, err e)
    validate_checked rs eb key agent now s (ok _) =
        let (s', reserved) = rs.reserve eb.bootstrap_id s in
        if reserved
        then finish rs eb.bootstrap_id s' (open_bundle eb key agent now)
        else (s', err reserve_failed)

    -- The bundle and the store may be nil.
    unfoldable pub validate_bootstrap_bundle :
        Option EncryptedBundle
        → RsaPrivate
        → SignPublic
        → String
        → Option (ReplayStore S)
        → Time
        → S
        → S × Result BundleData
    unfolding validate_checked
    validate_bootstrap_bundle none key signer agent rs now s = (s, err nil_bundle)
    validate_bootstrap_bundle (some eb) key signer agent none now s = (s, err nil_replay_store)
    validate_bootstrap_bundle (some eb) key signer agent (some rs) now s =
        validate_checked rs eb key agent now s (check_outer eb key signer agent)
