-- ===== src/Bootstrap/Encrypt/Written.antt =====
-- What encryptBundle leaves, and whom it is for.
use forge_grid.Prelude.{
  String, ◌≡◌, refl, sym, ap, ◌∙◌, Option, none, some, arith, length, Option-cases, inl, inr,
}
use forge_grid.Bootstrap.Bytes.{Bytes}
use forge_grid.Bootstrap.Payload.{BundleData, EncryptedBundle}
use forge_grid.Bootstrap.Crypto.{Crypto, Laws}
use forge_grid.Bootstrap.Bundle.{
  Result, ok, err, generate_signed_bootstrap_bundle, decrypt_bootstrap_bundle,
}
use forge_grid.Bootstrap.Validate.RoundTrip.{generate-decrypt}
use forge_grid.Bootstrap.Encrypt.{
  EncryptError, Outcome, done, failed, ◌>>=◌, or_fail, plain_unread, plain_malformed, made, Desk,
  EncryptPaths, read_public, read_signer, make_envelope, write_envelope, encrypt_bundle,
}

bind_done :
    {A B : Type 0} {b : B} (f : A → Outcome B) (m : Outcome A)
    → m >>= f ≡ done b
    → (a : A) × (m ≡ done a) × (f a ≡ done b)
bind_done f (failed e) h = absurd (ground (arith, h))
bind_done f (done a) h = (a, refl, h)

or_fail_done :
    {A : Type 0} {a : A} (e : EncryptError) (o : Option A) → or_fail e o ≡ done a → o ≡ some a
or_fail_done e none h = absurd (ground (arith, h))
or_fail_done e (some a) h = ground (arith, h)

made_done : {eb : EncryptedBundle} (r : Result EncryptedBundle) → made r ≡ done eb → r ≡ ok eb
made_done (ok e) h = ground (arith, h)
made_done (err e) h = absurd (ground (arith, h))

module _ {RsaPublic RsaPrivate SignPublic SignPrivate R : Type 0}
    (c : Crypto RsaPublic RsaPrivate SignPublic SignPrivate)
    (desk : Desk R RsaPublic RsaPrivate SignPrivate) where
  -- A bundle on disk for the holder of a private key.
  pub record IsWritten (public_key : RsaPublic) (paths : EncryptPaths) (r r' : R) : Type 0 where
    pub plain : Bytes
    pub content : BundleData
    pub envelope : EncryptedBundle
    pub text : Bytes
    pub plain_read : desk.read_file paths.plain r ≡ some plain
    pub content_read : desk.unmarshal_data plain ≡ some content
    pub marshalled : desk.marshal_envelope envelope ≡ some text
    pub stored : desk.read_file paths.out r' ≡ some text
    pub opened :
        (key : RsaPrivate)
        → c.rsa_public key ≡ public_key
        → decrypt_bootstrap_bundle c (some envelope) key ≡ ok content

  write_envelope-stored :
      (out : String) (x : Outcome EncryptedBundle) (r : R)
      → (write_envelope c desk out x r).1 ≡ none
      → (eb : EncryptedBundle) × (text : Bytes) × (x ≡ done eb)
        × (desk.marshal_envelope eb ≡ some text)
        × (desk.read_file out (write_envelope c desk out x r).0 ≡ some text)
  unfolding write_envelope
  write_envelope-stored out (failed e) r h = absurd (ground (arith, h))
  write_envelope-stored out (done eb) r h = elim (Option-cases (desk.marshal_envelope eb)) [
    | inl bad ↦ absurd (ground (arith, h, bad))
    | inr (text, e) ↦ (
      eb,
      text,
      refl,
      e,
      rw (e, write_envelope) (desk.write_file_done out text r (ground (arith, h, e))),
    )
  ]

  -- If encryptBundle reports no error, the output file holds a bundle which the holder of the private
  -- key opens to the content of the input file, given the laws of the cryptography, a nonce of twelve
  -- bytes, and that the public key is the one in the key file.
  pub encrypt_bundle_done :
      (new_key : Option Bytes) (nonce random : Bytes) (paths : EncryptPaths) (r : R)
      (public_key : RsaPublic)
      → Laws c
      → length nonce ≡ 12
      → read_public c desk (desk.read_file paths.public_key r) ≡ done public_key
      → (encrypt_bundle c desk new_key (some nonce) random paths r).1 ≡ none
      → IsWritten public_key paths r (encrypt_bundle c desk new_key (some nonce) random paths r).0
  unfolding encrypt_bundle make_envelope
  encrypt_bundle_done new_key nonce random paths r public_key laws twelve held h =
      let (eb, text, enveloped, marshalled, stored) =
        write_envelope-stored paths.out (make_envelope c desk new_key (some nonce) random paths r) r
          h in
      let (k, got, h1) =
        bind_done _ (read_public c desk (desk.read_file paths.public_key r)) enveloped in
      let (signer, _, h2) = bind_done _ (read_signer c desk (desk.read_file paths.signer r)) h1 in
      let (plain, p, h3) = bind_done _ (or_fail plain_unread (desk.read_file paths.plain r)) h2 in
      let (content, q, h4) = bind_done _ (or_fail plain_malformed (desk.unmarshal_data plain)) h3 in
      let same : k ≡ public_key = ground (arith, got, held) in
      record {
        plain = plain;
        content = content;
        envelope = eb;
        text = text;
        plain_read = or_fail_done plain_unread _ p;
        content_read = or_fail_done plain_malformed _ q;
        marshalled = marshalled;
        stored = stored;
        opened = λ key own.
            generate-decrypt c new_key nonce random key signer content eb laws twelve (
              ap
                (λ (k' : RsaPublic).
                  generate_signed_bootstrap_bundle c new_key (some nonce) random k' signer content)
                (own ∙ sym same)
              ∙ made_done _ h4);
      }
