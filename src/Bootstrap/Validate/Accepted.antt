-- ===== src/Bootstrap/Validate/Accepted.antt =====
-- What a bundle that ValidateBootstrapBundle accepts has been checked for.
use forge_grid.Prelude.{
  not, ◌+◌, ◌≤◌, ◌<◌, String, ◌≡◌, refl, ap, ◌∙◌, inl, inr, true, false, some, arith, ◌==◌, eq_iff,
  Bool-cases, Option-cases, ltb, nat_eq, subst,
}
use forge_grid.Bridge.Models.{Time}
use forge_grid.Bootstrap.Bytes.{Bytes, byte_len}
use forge_grid.Bootstrap.Payload.{BundleData, EncryptedBundle, construct_signed_payload}
use forge_grid.Bootstrap.Crypto.{Crypto}
use forge_grid.Bootstrap.Bundle.{
  Result, ok, err, ◌>>=◌, decrypt_bootstrap_bundle, inner_version, id_mismatch, agent_mismatch,
  fingerprint_length, fingerprint_hex, missing_fields, issued_format, expiry_format,
  issued_in_future, expiry_order, expired,
}
use forge_grid.Bootstrap.Bundle.Laws.{require_passed, or_fail_passed}
use forge_grid.Bootstrap.Validate.{
  ReplayStore, clock_skew, check_outer, has_empty_field, check_inner, open_bundle, finish,
  validate_checked, validate_bootstrap_bundle,
}

module _ {RsaPublic RsaPrivate SignPublic SignPrivate : Type 0}
    (c : Crypto RsaPublic RsaPrivate SignPublic SignPrivate) where
  -- The envelope is of this version, and it is signed by the signer for this agent and this key.
  pub record IsSigned (eb : EncryptedBundle) (key : RsaPrivate) (signer : SignPublic)
      (agent : String) : Type 0 where
    pub version : eb.schema_version ≡ "1"
    pub algorithm : eb.signature_algorithm ≡ "ed25519"
    pub signer_known : eb.signer_fingerprint ≡ c.sha256_hex (c.sign_public_bytes signer)
    pub mark : Bytes
    pub own_key : Bytes
    pub mark_read : c.base64_decode eb.signature ≡ some mark
    pub own_key_read : c.marshal_public_key (c.rsa_public key) ≡ some own_key
    pub verified :
        c.verify signer (construct_signed_payload eb agent (c.sha256_hex own_key)) mark ≡ true

  -- The content is of this version, for this id and agent, complete, and in force.
  pub record IsCurrent (eb : EncryptedBundle) (agent : String) (now : Time) (bd : BundleData)
      : Type 0 where
    pub inner_is : bd.schema_version ≡ "1"
    pub id_is : bd.bootstrap_id ≡ eb.bootstrap_id
    pub agent_is : bd.agent_name ≡ agent
    pub hash_length : byte_len bd.fingerprint ≡ 64
    pub hash_hex : c.is_hex bd.fingerprint ≡ true
    pub complete : has_empty_field c bd ≡ false
    pub issued_at : Time
    pub expires_at : Time
    pub issued_read : c.parse_time bd.issued ≡ some issued_at
    pub expiry_read : c.parse_time bd.expiry ≡ some expires_at
    pub issued_before : issued_at ≤ now + clock_skew
    pub ordered : issued_at < expires_at
    pub in_force : now ≤ expires_at

  check_outer-IsSigned :
      (eb : EncryptedBundle) (key : RsaPrivate) (signer : SignPublic) (agent : String)
      → check_outer c eb key signer agent ≡ ok tt
      → IsSigned eb key signer agent
  unfolding check_outer
  check_outer-IsSigned eb key signer agent h = elim (Option-cases (c.base64_decode eb.signature)) [
    | inl bad ↦ absurd (ground (arith, bad, h))
    | inr (mark, read) ↦ elim (Option-cases (c.marshal_public_key (c.rsa_public key))) [
      | inl bad ↦ absurd (ground (arith, bad, read, h))
      | inr (own, own_read) ↦ record {
        version = ground (arith, h, eq_iff eb.schema_version "1");
        algorithm = ground (arith, h, eq_iff eb.signature_algorithm "ed25519");
        signer_known =
            ground
              (arith, h, eq_iff eb.signer_fingerprint (c.sha256_hex (c.sign_public_bytes signer)));
        mark = mark;
        own_key = own;
        mark_read = read;
        own_key_read = own_read;
        verified = ground (arith, h, read, own_read);
      }
    ]
  ]

  check_inner-IsCurrent :
      (eb : EncryptedBundle) (agent : String) (now : Time) (bd found : BundleData)
      → check_inner c eb agent now bd ≡ ok found
      → (bd ≡ found) × IsCurrent eb agent now bd
  unfolding check_inner
  check_inner-IsCurrent eb agent now bd found h =
      let (version, h1) = require_passed (bd.schema_version == "1") inner_version h in
      let (id, h2) = require_passed (bd.bootstrap_id == eb.bootstrap_id) id_mismatch h1 in
      let (name, h3) = require_passed (bd.agent_name == agent) agent_mismatch h2 in
      let (length, h4) =
        require_passed (nat_eq (byte_len bd.fingerprint) 64) fingerprint_length h3 in
      let (hex, h5) = require_passed (c.is_hex bd.fingerprint) fingerprint_hex h4 in
      let (complete, h6) = require_passed (not (has_empty_field c bd)) missing_fields h5 in
      let (issued, issued_read, h7) = or_fail_passed _ (c.parse_time bd.issued) issued_format h6 in
      let (expiry, expiry_read, h8) = or_fail_passed _ (c.parse_time bd.expiry) expiry_format h7 in
      let (before, h9) = require_passed (not (ltb (now + clock_skew) issued)) issued_in_future h8 in
      let (ordered, h10) = require_passed (ltb issued expiry) expiry_order h9 in
      let (alive, h11) = require_passed (not (ltb expiry now)) expired h10 in
      (
        ground (arith, h11),
        record {
          inner_is = (eq_iff bd.schema_version "1").0 version;
          id_is = (eq_iff bd.bootstrap_id eb.bootstrap_id).0 id;
          agent_is = (eq_iff bd.agent_name agent).0 name;
          hash_length = ground (arith, length);
          hash_hex = hex;
          complete = ground (arith, complete);
          issued_at = issued;
          expires_at = expiry;
          issued_read = issued_read;
          expiry_read = expiry_read;
          issued_before = ground (arith, before);
          ordered = ground (arith, ordered);
          in_force = ground (arith, alive);
        },
      )

  open_bundle-IsCurrent :
      (eb : EncryptedBundle) (key : RsaPrivate) (agent : String) (now : Time) (bd : BundleData)
      → open_bundle c eb key agent now ≡ ok bd
      → (decrypt_bootstrap_bundle c (some eb) key ≡ ok bd) × IsCurrent eb agent now bd
  unfolding open_bundle
  open_bundle-IsCurrent eb key agent now bd h = go (decrypt_bootstrap_bundle c (some eb) key) refl h
    where
      go :
          (r : Result BundleData)
          → decrypt_bootstrap_bundle c (some eb) key ≡ r
          → (r >>= λ b. check_inner c eb agent now b) ≡ ok bd
          → (decrypt_bootstrap_bundle c (some eb) key ≡ ok bd) × IsCurrent eb agent now bd
      go (err e) same chain = absurd (ground (arith, chain))
      go (ok b) same chain =
          let (e, current) = check_inner-IsCurrent eb agent now b bd chain in
          (same ∙ ap ok e, subst (IsCurrent eb agent now) e current)

  module _ {S : Type 0} where
    -- A bundle that is accepted was decrypted from an envelope that the signer signed for this agent
    -- and this key; its content repeats the envelope's id, is for this agent and complete, has a
    -- fingerprint of 64 hexadecimal digits, was issued at most five minutes ahead and has not
    -- expired; and its id was reserved in the replay store, which is left as the reservation made it.
    pub validate_accepted :
        (eb : EncryptedBundle) (key : RsaPrivate) (signer : SignPublic) (agent : String)
        (rs : ReplayStore S) (now : Time) (s : S) (bd : BundleData)
        → (validate_bootstrap_bundle c (some eb) key signer agent (some rs) now s).1 ≡ ok bd
        → IsSigned eb key signer agent
          × (decrypt_bootstrap_bundle c (some eb) key ≡ ok bd)
          × IsCurrent eb agent now bd
          × ((rs.reserve eb.bootstrap_id s).1 ≡ true)
          × ((validate_bootstrap_bundle c (some eb) key signer agent (some rs) now s).0
              ≡ (rs.reserve eb.bootstrap_id s).0)
    unfolding validate_bootstrap_bundle validate_checked finish
    validate_accepted eb key signer agent rs now s bd h =
        checked (check_outer c eb key signer agent) refl h
      where
        opened :
            (r : Result BundleData)
            → (finish c rs eb.bootstrap_id (rs.reserve eb.bootstrap_id s).0 r).1 ≡ ok bd
            → (r ≡ ok bd)
              × ((finish c rs eb.bootstrap_id (rs.reserve eb.bootstrap_id s).0 r).0
                  ≡ (rs.reserve eb.bootstrap_id s).0)
        opened (ok b) e = (e, refl)
        opened (err e') e = absurd (ground (arith, e))

        checked :
            (r : Result (Unit {0}))
            → check_outer c eb key signer agent ≡ r
            → (validate_checked c rs eb key agent now s r).1 ≡ ok bd
            → IsSigned eb key signer agent
              × (decrypt_bootstrap_bundle c (some eb) key ≡ ok bd)
              × IsCurrent eb agent now bd
              × ((rs.reserve eb.bootstrap_id s).1 ≡ true)
              × ((validate_checked c rs eb key agent now s r).0 ≡ (rs.reserve eb.bootstrap_id s).0)
        checked (err e) same e' = absurd (ground (arith, e'))
        checked (ok u) same e = elim (Bool-cases (rs.reserve eb.bootstrap_id s).1) [
          | inr failed ↦ absurd (ground (arith, failed, e))
          | inl reserved ↦
              let (done, kept) =
                opened (open_bundle c eb key agent now) (rw (reserved, validate_checked) at e) in
              let (opened', current) = open_bundle-IsCurrent eb key agent now bd done in
              (
                check_outer-IsSigned eb key signer agent same,
                opened',
                current,
                reserved,
                rw (reserved, validate_checked) kept,
              )
        ]
