-- ===== src/Bridge/Client/Commands/Keys.antt =====
-- `getTLSKeys` and `rotateTLSCmd` of internal/agentbridge/cli.go: the certificate of the relay, as
-- two files in its data directory.
use forge_grid.Prelude.{
  String, ◌≡◌, ◌≢◌, refl, ap, ◌∙◌, Bool, true, not, Option, none, some, arith, eq_iff, Bool-cases,
  Option-cases, inl, inr, if◌then◌else◌,
}
use forge_grid.Bootstrap.Bytes.{Bytes}
use forge_grid.Network.{Pki, Certificate, generate_self_signed_cert, fingerprint_from_pem}
use forge_grid.Network.Pinned.{generate_self_signed_cert_pinned}

-- The calls of package os on files of bytes. The Boolean says that the call returned no error.
pub record KeyFiles (D : Type 0) : Type 0 where
  pub read_file : String → D → Option Bytes
  pub write_file : String → Bytes → D → D × Bool
  pub remove : String → D → D
  pub write_file_done :
      (p : String) (b : Bytes) (d : D)
      → (write_file p b d).1 ≡ true
      → read_file p (write_file p b d).0 ≡ some b
  pub write_file_other :
      (p q : String) (b : Bytes) (d : D) → p ≢ q → read_file q (write_file p b d).0 ≡ read_file q d

abbrev pub cert_file : String
cert_file = "cert.pem"

abbrev pub key_file : String
key_file = "key.pem"

pub data KeyResult : Type 0 where
  keys : String → KeyResult
  corrupt_cert not_generated cert_unwritten key_unwritten : KeyResult

module _ {D Key : Type 0} (os : KeyFiles D) (pki : Pki Key) where
  unfoldable pub store_keys : Option Certificate → D → D × KeyResult
  store_keys none d = (d, not_generated)
  store_keys (some made) d =
      let (d1, cert_written) = os.write_file cert_file made.cert_pem d in
      let (d2, key_written) = os.write_file key_file made.key_pem d1 in
      if not cert_written
      then (d1, cert_unwritten)
      else if not key_written
      then (d2, key_unwritten)
      else (d2, keys made.fingerprint)

  abbrev existing : Bytes → KeyResult
  existing cert = elim (fingerprint_from_pem pki cert) [
    | none ↦ corrupt_cert
    | some fingerprint ↦ keys fingerprint
  ]

  -- The key and the serial number are those of GenerateSelfSignedCert.
  unfoldable pub get_tls_keys : Option Key → Option Bytes → D → D × KeyResult
  unfolding store_keys generate_self_signed_cert fingerprint_from_pem
  get_tls_keys new_key new_serial d =
      let fresh = store_keys (generate_self_signed_cert pki new_key new_serial) d in
      elim (os.read_file cert_file d) [
        | none ↦ fresh
        | some cert ↦ elim (os.read_file key_file d) [ none ↦ fresh | some _ ↦ (d, existing cert) ]
      ]

  -- The errors of Remove are dropped.
  unfoldable pub rotate_tls : Option Key → Option Bytes → D → D × KeyResult
  unfolding get_tls_keys
  rotate_tls new_key new_serial d =
      get_tls_keys new_key new_serial (os.remove key_file (os.remove cert_file d))

module _ {D Key : Type 0} (os : KeyFiles D) (pki : Pki Key) where
  -- The directory holds a key, and a certificate with that fingerprint.
  record IsStored (fingerprint : String) (d : D) : Type 0 where
    pub cert : Bytes
    pub key : Bytes
    pub cert_read : os.read_file cert_file d ≡ some cert
    pub key_read : os.read_file key_file d ≡ some key
    pub print : fingerprint_from_pem pki cert ≡ some fingerprint

  key-ne-cert : key_file ≢ cert_file
  key-ne-cert e = ground (arith, e, eq_iff key_file cert_file)

  store_keys-IsStored :
      (k : Option Key) (n : Option Bytes) (fingerprint : String) (d : D)
      → (store_keys os pki (generate_self_signed_cert pki k n) d).1 ≡ keys fingerprint
      → IsStored fingerprint (store_keys os pki (generate_self_signed_cert pki k n) d).0
  unfolding store_keys
  store_keys-IsStored k n fingerprint d h =
      elim (Option-cases (generate_self_signed_cert pki k n)) [
        | inl failed ↦ absurd (ground (arith, h, failed))
        | inr (made, e) ↦ rw (e, store_keys) (written made e (rw (e, store_keys) at h))
      ]
    where
      written :
          (made : Certificate)
          → generate_self_signed_cert pki k n ≡ some made
          → (store_keys os pki (some made) d).1 ≡ keys fingerprint
          → IsStored fingerprint (store_keys os pki (some made) d).0
      written made e h' =
          let d1 = (os.write_file cert_file made.cert_pem d).0 in
          elim (Bool-cases (os.write_file cert_file made.cert_pem d).1) [
            | inr broken ↦ absurd (ground (arith, h', broken))
            | inl cert_written ↦ elim (Bool-cases (os.write_file key_file made.key_pem d1).1) [
              | inr broken ↦ absurd (ground (arith, h', cert_written, broken))
              | inl key_written ↦
                  rw (cert_written, key_written, store_keys)
                    (record {
                      cert = made.cert_pem;
                      key = made.key_pem;
                      cert_read =
                          os.write_file_other key_file cert_file made.key_pem d1 key-ne-cert
                          ∙ os.write_file_done cert_file made.cert_pem d cert_written;
                      key_read = os.write_file_done key_file made.key_pem d1 key_written;
                      print =
                          (generate_self_signed_cert_pinned pki k n made e).0
                          ∙ ap some (ground (arith, h', cert_written, key_written));
                    })
            ]
          ]

  get_tls_keys-IsStored :
      (k : Option Key) (n : Option Bytes) (fingerprint : String) (d : D)
      → (get_tls_keys os pki k n d).1 ≡ keys fingerprint
      → IsStored fingerprint (get_tls_keys os pki k n d).0
  unfolding get_tls_keys
  get_tls_keys-IsStored k n fingerprint d h = elim (Option-cases (os.read_file cert_file d)) [
    | inl absent ↦
        rw (absent, get_tls_keys)
          (store_keys-IsStored k n fingerprint d (rw (absent, get_tls_keys) at h))
    | inr (cert, cert_read) ↦ elim (Option-cases (os.read_file key_file d)) [
      | inl absent ↦
          rw (cert_read, get_tls_keys)
            (rw absent (
              store_keys-IsStored k n fingerprint d
                (rw absent at (rw (cert_read, get_tls_keys) at h))))
      | inr (key, key_read) ↦ elim (Option-cases (fingerprint_from_pem pki cert)) [
        | inl corrupt ↦ absurd (ground (arith, h, cert_read, key_read, corrupt))
        | inr (print, e) ↦
            rw (cert_read, get_tls_keys)
              (rw key_read (record {
                cert = cert;
                key = key;
                cert_read = cert_read;
                key_read = key_read;
                print = e ∙ ap some (ground (arith, h, cert_read, key_read, e));
              }))
      ]
    ]
  ]

  -- Once the relay has a certificate, found or generated, every later start and whatever it would
  -- draw finds the same fingerprint and changes nothing.
  pub get_tls_keys_stable :
      (k k' : Option Key) (n n' : Option Bytes) (fingerprint : String) (d : D)
      → (get_tls_keys os pki k n d).1 ≡ keys fingerprint
      → get_tls_keys os pki k' n' (get_tls_keys os pki k n d).0
        ≡ ((get_tls_keys os pki k n d).0, keys fingerprint)
  unfolding get_tls_keys
  get_tls_keys_stable k k' n n' fingerprint d h =
      let s = get_tls_keys-IsStored k n fingerprint d h in
      rw (s.cert_read, get_tls_keys) (rw s.key_read (rw (s.print, existing) refl))
