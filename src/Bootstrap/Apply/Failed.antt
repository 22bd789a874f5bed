-- ===== src/Bootstrap/Apply/Failed.antt =====
-- What a run that failed leaves of the replay store.
use forge_grid.Prelude.{
  String, ◌≡◌, ◌≢◌, refl, sym, ap, ◌∙◌, ◌⊎◌, inl, inr, false, none, some, Bool-cases, Option-cases,
}
use forge_grid.Bridge.Models.{Time}
use forge_grid.Bootstrap.Payload.{BundleData}
use forge_grid.Bootstrap.Crypto.{Crypto}
use forge_grid.Bootstrap.Bundle.{Result, ok, err}
use forge_grid.Bootstrap.Validate.{ReplayStore, validate_bootstrap_bundle}
use forge_grid.Bootstrap.Validate.Accepted.{validate_accepted}
use forge_grid.Bootstrap.Validate.Reservation.{validate_refused}
use forge_grid.Bootstrap.Apply.{
  config_path, Step, done, failed, Host, Inputs, Paths, World, read_inputs, check_config,
  configure_of, configure_and_commit, apply_validated, apply_inputs, decrypt_and_apply,
}
use forge_grid.Bootstrap.Apply.Applied.{settle_cases, secured}

module _ {RsaPublic RsaPrivate SignPublic SignPrivate R S : Type 0}
    (c : Crypto RsaPublic RsaPrivate SignPublic SignPrivate) (host : Host R RsaPrivate SignPublic)
    (rs : ReplayStore S) where
  -- What the configuration makes of the replay store.
  configure_and_commit_replays :
      (id : String) (bd : BundleData) (w : World S R)
      → ((configure_and_commit c host rs id bd w).0.replays ≡ w.replays)
        ⊎ ((configure_and_commit c host rs id bd w).0.replays ≡ (rs.commit id w.replays).0)
  unfolding configure_and_commit
  configure_and_commit_replays id bd w =
      elim (Bool-cases (host.configure (configure_of c host rs bd) w.rest).1) [
        | inr bad ↦ rw bad (inl refl)
        | inl run ↦
            elim (Option-cases (
              check_config c host rs
                (host.read_file (config_path host.surroundings)
                  (host.configure (configure_of c host rs bd) w.rest).0)
                bd)) [
                  | inl fine ↦ rw (run, fine) (inr refl)
                  | inr (e, bad) ↦ rw (run, bad) (inl refl)
                ]
      ]

  -- No id stays reserved by a run that failed: its reservation was refused, or it was released, before
  -- the commit or after it.
  abbrev pub IsReleased : String → S → S → Type 0
  IsReleased id before after =
      let reserved = (rs.reserve id before).0 in
      (after ≡ before)
      ⊎ (((rs.reserve id before).1 ≡ false) × (after ≡ reserved))
      ⊎ (after ≡ (rs.release id reserved).0)
      ⊎ (after ≡ (rs.release id (rs.commit id reserved).0).0)

  apply_validated-IsReleased :
      (paths : Paths) (agent : String) (now : Time) (w : World S R)
      (i : Inputs RsaPrivate SignPublic) (r : R) (v : S × Result BundleData)
      → validate_bootstrap_bundle c (some i.bundle) i.key i.signer agent (some rs) now w.replays ≡ v
      → (apply_validated c host rs paths i.bundle.bootstrap_id v r).1 ≢ none
      → IsReleased i.bundle.bootstrap_id w.replays
          (apply_validated c host rs paths i.bundle.bootstrap_id v r).0.replays
  unfolding apply_validated
  apply_validated-IsReleased paths agent now w i r (s, ok bd) same n =
      let id = i.bundle.bootstrap_id in
      let w1 : World S R = record { replays = s; rest = r } in
      let (_, _, _, _, kept) =
        validate_accepted c i.bundle i.key i.signer agent rs now w.replays bd
          (ap (λ (p : S × Result BundleData). p.1) same) in
      let start : s ≡ (rs.reserve id w.replays).0 =
        sym (ap (λ (p : S × Result BundleData). p.0) same) ∙ kept in
      elim (settle_cases c host rs paths id (configure_and_commit c host rs id bd w1)) [
        | inl (fine, _, _) ↦ absurd (n fine)
        | inr (_, released) ↦ elim (configure_and_commit_replays id bd w1) [
          | inl before ↦
              inr (inr (inl (released ∙ ap (λ (t : S). (rs.release id t).0) (before ∙ start))))
          | inr after ↦ inr (
              inr (
                inr (
                  released
                  ∙ ap (λ (t : S). (rs.release id t).0)
                      (after ∙ ap (λ (t : S). (rs.commit id t).0) start))))
        ]
      ]
  apply_validated-IsReleased paths agent now w i r (s, err e) same n =
      let start : s
          ≡ (validate_bootstrap_bundle c (some i.bundle) i.key i.signer agent (some rs) now
              w.replays).0 =
        sym (ap (λ (p : S × Result BundleData). p.0) same) in
      elim (validate_refused c i.bundle i.key i.signer agent rs now w.replays e
        (ap (λ (p : S × Result BundleData). p.1) same)) [
          | inl kept ↦ inl (start ∙ kept)
          | inr (inl (refused, made)) ↦ inr (inl (refused, start ∙ made))
          | inr (inr (_, released)) ↦ inr (inr (inl (start ∙ released)))
        ]

  -- A run of decrypt-and-apply that reports an error leaves the replay store as it was, as a refused
  -- reservation of the bundle's id made it, or as a release of that id made it right after its
  -- reservation or after its reservation and a commit.
  pub decrypt_and_apply_failed :
      (paths : Paths) (expected : String) (now : Time) (w : World S R)
      → (decrypt_and_apply c host rs paths expected now w).1 ≢ none
      → ((decrypt_and_apply c host rs paths expected now w).0.replays ≡ w.replays)
        ⊎ ((i : Inputs RsaPrivate SignPublic) × (read_inputs c host rs paths w.rest ≡ done i)
            × IsReleased i.bundle.bootstrap_id w.replays
                (decrypt_and_apply c host rs paths expected now w).0.replays)
  unfolding decrypt_and_apply
  decrypt_and_apply_failed paths expected now w n = go (read_inputs c host rs paths w.rest) n
    where
      go :
          (x : Step (Inputs RsaPrivate SignPublic))
          → (apply_inputs c host rs paths "windows-test" now w x).1 ≢ none
          → ((apply_inputs c host rs paths "windows-test" now w x).0.replays ≡ w.replays)
            ⊎ ((i : Inputs RsaPrivate SignPublic) × (x ≡ done i)
                × IsReleased i.bundle.bootstrap_id w.replays
                    (apply_inputs c host rs paths "windows-test" now w x).0.replays)
      go (failed e) m = inl (unfold apply_inputs in refl)
      go (done i) m = inr (
        i,
        refl,
        unfold apply_inputs in
            (elim (Bool-cases (secured c host rs w.rest).1) [
              | inr unmade ↦ rw unmade (inl refl)
              | inl made ↦ rw made (
                  apply_validated-IsReleased paths "windows-test" now w i
                    (secured c host rs w.rest).0 _ refl (rw (made, apply_inputs) at m))
            ]),
      )
