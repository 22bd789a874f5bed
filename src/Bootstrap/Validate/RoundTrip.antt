-- ===== src/Bootstrap/Validate/RoundTrip.antt =====
-- `GenerateSignedBootstrapBundle` followed by `DecryptBootstrapBundle`.
use forge_grid.Prelude.{◌≡◌, Option, some, length, arith, true, subst}
use forge_grid.Bootstrap.Bytes.{Bytes}
use forge_grid.Bootstrap.Payload.{BundleData, EncryptedBundle}
use forge_grid.Bootstrap.Crypto.{Crypto, Laws}
use forge_grid.Bootstrap.Bundle.{
  ok, generation, get_aad, fingerprint_of, unsigned, sign_bundle, generate_signed_bootstrap_bundle,
  decrypt_bootstrap_bundle,
}
use forge_grid.Bootstrap.Bundle.Laws.{require_passed, or_fail_passed}

module _ {RsaPublic RsaPrivate SignPublic SignPrivate : Type 0}
    (c : Crypto RsaPublic RsaPrivate SignPublic SignPrivate) where
  -- What a generated bundle is made of.
  record IsGenerated (new_key : Option Bytes) (nonce random : Bytes) (pub_key : RsaPublic)
      (sign_key : SignPrivate) (bd : BundleData) (eb : EncryptedBundle) : Type 0 where
    text : Bytes
    aes : Bytes
    enc : Bytes
    marshalled : c.marshal_bundle bd ≡ some text
    usable : c.is_aes_key aes ≡ true
    wrapped : c.encrypt_oaep random pub_key aes ≡ some enc
    exact :
        sign_bundle c sign_key bd.agent_name
          (fingerprint_of c pub_key)
          (unsigned c bd aes nonce text enc)
        ≡ eb

  generate_parts :
      (new_key : Option Bytes) (nonce random : Bytes) (pub_key : RsaPublic) (sign_key : SignPrivate)
      (bd : BundleData) (eb : EncryptedBundle)
      → generate_signed_bootstrap_bundle c new_key (some nonce) random pub_key sign_key bd ≡ ok eb
      → IsGenerated new_key nonce random pub_key sign_key bd eb
  unfolding generate_signed_bootstrap_bundle
  generate_parts new_key nonce random pub_key sign_key bd eb h =
      let (text, marshalled, h1) = or_fail_passed _ (c.marshal_bundle bd) generation h in
      let (aes, drawn, h2) = or_fail_passed _ new_key generation h1 in
      let (usable, h3) = require_passed (c.is_aes_key aes) generation h2 in
      let (enc, wrapped, h4) = or_fail_passed _ (c.encrypt_oaep random pub_key aes) generation h3 in
      record {
        text = text;
        aes = aes;
        enc = enc;
        marshalled = marshalled;
        usable = usable;
        wrapped = wrapped;
        exact = ground (arith, h4);
      }

  -- A bundle that was generated for the public half of a key, with a nonce of 12 bytes, is decrypted
  -- with that key to what was bundled.
  pub generate-decrypt :
      (new_key : Option Bytes) (nonce random : Bytes) (key : RsaPrivate) (sign_key : SignPrivate)
      (bd : BundleData) (eb : EncryptedBundle)
      → Laws c
      → length nonce ≡ 12
      → generate_signed_bootstrap_bundle c new_key
          (some nonce)
          random
          (c.rsa_public key)
          sign_key
          bd
        ≡ ok eb
      → decrypt_bootstrap_bundle c (some eb) key ≡ ok bd
  unfolding decrypt_bootstrap_bundle
  generate-decrypt new_key nonce random key sign_key bd eb laws twelve h =
      let g = generate_parts new_key nonce random (c.rsa_public key) sign_key bd eb h in
      let aad = get_aad bd.schema_version bd.bootstrap_id in
      subst (λ (e : EncryptedBundle). decrypt_bootstrap_bundle c (some e) key ≡ ok bd) g.exact
        (rw
          (
            laws.base64_round_trip g.enc,
            laws.base64_round_trip nonce,
            laws.base64_round_trip (c.seal g.aes nonce g.text aad),
            laws.oaep_round_trip random key g.aes g.enc g.wrapped,
            g.usable,
          )
          (ground (
            arith,
            twelve,
            laws.seal_round_trip g.aes nonce g.text aad twelve,
            laws.bundle_round_trip bd g.text g.marshalled,
          )))
