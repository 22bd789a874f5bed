-- ===== src/Coordinator/Start.antt =====
-- `Start` of internal/coordinator/coordinator.go: the identity and the certificate of the coordinator.
use Prim.Native.String.{◌++◌}
use forge_grid.Prelude.{
  ℕ, ◌≡◌, ◌≢◌, refl, sym, ap, ◌∙◌, String, false, Option, none, some, arith, ◌==◌, eq_iff,
  Bool-cases, Option-cases, inl, inr, nat_eq, length, decimal, if◌then◌else◌, cut_prefix,
  cut_prefix-append, none-ne-some,
}
use forge_grid.Bootstrap.Bytes.{Bytes}
use forge_grid.Network.{Pki, Certificate, generate_self_signed_cert, fingerprint_from_pem}
use forge_grid.Network.Pinned.{generate_self_signed_cert_pinned, generate_self_signed_cert-pem}
use forge_grid.Coordinator.Store.{Store, save}
use forge_grid.Coordinator.Requests.{Libraries}

module _ {D Key : Type 0} (libs : Libraries D) (pki : Pki Key) where
  open libs use {os, store_json}

  -- The clock's nanoseconds since 1970 name a coordinator that has no name.
  unfoldable pub ensure_identity : ℕ → Store D → Store D
  ensure_identity stamp s =
      if s.config.identity == ""
      then save os store_json
          (record s { config = record s.config { identity = "ForgeGrid-" ++ decimal stamp } })
      else s

  unfoldable pub keep_cert : Option Certificate → Store D → Store D × Option String
  keep_cert none s = (s, none)
  keep_cert (some made) s = (
    save os store_json (record s {
      config = record s.config { cert_pem = made.cert_pem; key_pem = made.key_pem };
    }),
    some made.fingerprint,
  )

  -- The fingerprint, or none at an error.
  unfoldable pub ensure_cert : Option Key → Option Bytes → Store D → Store D × Option String
  unfolding keep_cert generate_self_signed_cert fingerprint_from_pem
  ensure_cert new_key new_serial s =
      if nat_eq (length s.config.cert_pem) 0
      then keep_cert (generate_self_signed_cert pki new_key new_serial) s
      else (s, fingerprint_from_pem pki s.config.cert_pem)

  -- The part of Start under the lock.
  unfoldable pub start : ℕ → Option Key → Option Bytes → Store D → Store D × Option String
  unfolding ensure_identity ensure_cert
  start stamp new_key new_serial s = ensure_cert new_key new_serial (ensure_identity stamp s)

module _ {D Key : Type 0} (libs : Libraries D) (pki : Pki Key) where
  open libs use {os, store_json}

  -- A coordinator with a name, and a certificate of that fingerprint.
  pub record IsStarted (fingerprint : String) (s : Store D) : Type 0 where
    pub named : s.config.identity ≢ ""
    pub filled : nat_eq (length s.config.cert_pem) 0 ≡ false
    pub print : fingerprint_from_pem pki s.config.cert_pem ≡ some fingerprint

  -- No block of PEM is empty.
  abbrev pub IsPem : Type 0
  IsPem = (type : String) (b : Bytes) → nat_eq (length (pki.encode_pem type b)) 0 ≡ false

  new-identity : (stamp : ℕ) → "ForgeGrid-" ++ decimal stamp ≢ ""
  unfolding cut_prefix
  new-identity stamp e =
      none-ne-some
        (sym (cut_prefix-append "ForgeGrid-" (decimal stamp)) ∙ ap (cut_prefix "ForgeGrid-") e)

  ensure_identity-named :
      (stamp : ℕ) (s : Store D) → (ensure_identity libs pki stamp s).config.identity ≢ ""
  unfolding ensure_identity save
  ensure_identity-named stamp s = elim (Bool-cases (s.config.identity == "")) [
    | inl bare ↦ rw bare (new-identity stamp)
    | inr named ↦ rw named (λ e. ground (arith, e, named, eq_iff s.config.identity ""))
  ]

  ensure_identity-kept :
      (stamp : ℕ) (s : Store D) → s.config.identity ≢ "" → ensure_identity libs pki stamp s ≡ s
  unfolding ensure_identity
  ensure_identity-kept stamp s named =
      let given : (s.config.identity == "") ≡ false =
        ground (arith, named, eq_iff s.config.identity "") in
      rw given refl

  generated-filled :
      (k : Option Key) (n : Option Bytes) (made : Certificate)
      → IsPem
      → generate_self_signed_cert pki k n ≡ some made
      → nat_eq (length made.cert_pem) 0 ≡ false
  generated-filled k n made pem e =
      let (der, same) = generate_self_signed_cert-pem pki k n made e in
      ap (λ (b : Bytes). nat_eq (length b) 0) same ∙ pem "CERTIFICATE" der

  ensure_cert-IsStarted :
      (k : Option Key) (n : Option Bytes) (fingerprint : String) (s : Store D)
      → IsPem
      → s.config.identity ≢ ""
      → (ensure_cert libs pki k n s).1 ≡ some fingerprint
      → IsStarted fingerprint (ensure_cert libs pki k n s).0
  unfolding ensure_cert save
  ensure_cert-IsStarted k n fingerprint s pem named h =
      elim (Bool-cases (nat_eq (length s.config.cert_pem) 0)) [
        | inr there ↦
            rw (there, ensure_cert)
              (record { named = named; filled = there; print = rw (there, ensure_cert) at h })
        | inl missing ↦ elim (Option-cases (generate_self_signed_cert pki k n)) [
          | inl failed ↦ absurd (ground (arith, h, missing, failed))
          | inr (made, e) ↦
              rw (missing, ensure_cert)
                (rw (e, keep_cert)
                  (record {
                    named = named;
                    filled = generated-filled k n made pem e;
                    print =
                        (generate_self_signed_cert_pinned pki k n made e).0
                        ∙ ap some (ground (arith, h, missing, e));
                  }))
        ]
      ]

  -- Once Start has found or made a certificate, every later Start on that store, whatever it would
  -- draw, changes nothing and has the same fingerprint, if no block of PEM is empty.
  pub start_stable :
      (stamp stamp' : ℕ) (k k' : Option Key) (n n' : Option Bytes) (fingerprint : String)
      (s : Store D)
      → IsPem
      → (start libs pki stamp k n s).1 ≡ some fingerprint
      → start libs pki stamp' k' n' (start libs pki stamp k n s).0
        ≡ ((start libs pki stamp k n s).0, some fingerprint)
  unfolding start
  start_stable stamp stamp' k k' n n' fingerprint s pem h =
      let t = (start libs pki stamp k n s).0 in
      let r =
        ensure_cert-IsStarted k n fingerprint (ensure_identity libs pki stamp s) pem
          (ensure_identity-named stamp s) h in
      let kept : ensure_identity libs pki stamp' t ≡ t = ensure_identity-kept stamp' t r.named in
      ap (ensure_cert libs pki k' n') kept
      ∙ rw (r.filled, ensure_cert) (ap (λ (o : Option String). (t, o)) r.print)
