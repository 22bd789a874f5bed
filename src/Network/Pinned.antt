-- ===== src/Network/Pinned.antt =====
-- The certificate that is generated, and the connections that a pin accepts.
use forge_grid.Prelude.{
  ◌≡◌, refl, ◌↔◌, String, Option, none, some, List, [], ◌∷◌, arith, eq_iff, bind_some, ap, sym, ◌∙◌,
}
use forge_grid.Bootstrap.Bytes.{Bytes}
use forge_grid.Network.{
  Pki, Certificate, generate_self_signed_cert, fingerprint_from_pem, verify_connection,
}

module _ {Key : Type 0} (pki : Pki Key) where
  -- A connection passes the pin exactly when the first certificate of the peer has the fingerprint.
  pub verify_connection_iff :
      (fingerprint : String) (peer : List Bytes)
      → (verify_connection pki fingerprint peer ≡ none) ↔ (
          (der : Bytes) × (more : List Bytes) × (peer ≡ der ∷ more)
          × (pki.sha256_hex der ≡ fingerprint))
  unfolding verify_connection
  verify_connection_iff fingerprint [] =
      (λ h. absurd (ground (arith, h)), λ (der, more, e, _). absurd (ground (arith, e)))
  verify_connection_iff fingerprint (d ∷ ds) = (
    λ h. (d, ds, refl, ground (arith, h, eq_iff (pki.sha256_hex d) fingerprint)),
    λ (der, more, e, same). ground (arith, e, same, eq_iff (pki.sha256_hex d) fingerprint),
  )

  -- The fingerprint of a generated certificate is the one that is read back from its PEM, and a peer
  -- that presents it passes the pin on that fingerprint.
  pub generate_self_signed_cert_pinned :
      (key : Option Key) (serial : Option Bytes) (made : Certificate)
      → generate_self_signed_cert pki key serial ≡ some made
      → (fingerprint_from_pem pki made.cert_pem ≡ some made.fingerprint)
        × ((der : Bytes) (more : List Bytes)
            → pki.decode_pem made.cert_pem ≡ some der
            → verify_connection pki made.fingerprint (der ∷ more) ≡ none)
  unfolding generate_self_signed_cert fingerprint_from_pem verify_connection
  generate_self_signed_cert_pinned key serial made h =
      let (k, _, h1) = bind_some _ key h in
      let (n, _, h2) = bind_some _ serial h1 in
      let (der, _, h3) = bind_some _ (pki.create_certificate k n) h2 in
      let (key_bytes, _, h4) = bind_some _ (pki.marshal_key k) h3 in
      let cert : pki.encode_pem "CERTIFICATE" der ≡ made.cert_pem = ground (arith, h4) in
      let print : pki.sha256_hex der ≡ made.fingerprint = ground (arith, h4) in
      let read : pki.decode_pem made.cert_pem ≡ some der =
        ap pki.decode_pem (sym cert) ∙ pki.pem_round_trip "CERTIFICATE" der in
      (
        rw (read, fingerprint_from_pem) (ap some print),
        λ der' more e.
            let same : der' ≡ der = ground (arith, e, read) in
            ground (arith, same, print, eq_iff (pki.sha256_hex der') made.fingerprint),
      )

  -- What is generated is a block of PEM.
  pub generate_self_signed_cert-pem :
      (key : Option Key) (serial : Option Bytes) (made : Certificate)
      → generate_self_signed_cert pki key serial ≡ some made
      → (der : Bytes) × (made.cert_pem ≡ pki.encode_pem "CERTIFICATE" der)
  unfolding generate_self_signed_cert
  generate_self_signed_cert-pem key serial made h =
      let (k, _, h1) = bind_some _ key h in
      let (n, _, h2) = bind_some _ serial h1 in
      let (der, _, h3) = bind_some _ (pki.create_certificate k n) h2 in
      let (key_bytes, _, h4) = bind_some _ (pki.marshal_key k) h3 in (der, ground (arith, h4))
