-- ===== src/Bootstrap/Validate/Reservation.antt =====
-- What ValidateBootstrapBundle leaves in the replay store.
use forge_grid.Prelude.{◌≡◌, refl, ◌⊎◌, inl, inr, true, false, some, arith, Bool-cases, String}
use forge_grid.Bridge.Models.{Time}
use forge_grid.Bootstrap.Payload.{BundleData, EncryptedBundle}
use forge_grid.Bootstrap.Crypto.{Crypto}
use forge_grid.Bootstrap.Bundle.{Result, ok, err, BundleError}
use forge_grid.Bootstrap.Validate.{
  ReplayStore, check_outer, open_bundle, finish, validate_checked, validate_bootstrap_bundle,
}

module _ {RsaPublic RsaPrivate SignPublic SignPrivate S : Type 0}
    (c : Crypto RsaPublic RsaPrivate SignPublic SignPrivate) where
  -- A refused bundle leaves the store as it was, as a reservation of its id that failed made it, or
  -- as Release of its id made it right after a reservation that did not fail, whether or not Release
  -- reports an error.
  pub validate_refused :
      (eb : EncryptedBundle) (key : RsaPrivate) (signer : SignPublic) (agent : String)
      (rs : ReplayStore S) (now : Time) (s : S) (e : BundleError)
      → (validate_bootstrap_bundle c (some eb) key signer agent (some rs) now s).1 ≡ err e
      → ((validate_bootstrap_bundle c (some eb) key signer agent (some rs) now s).0 ≡ s)
        ⊎ (((rs.reserve eb.bootstrap_id s).1 ≡ false)
            × ((validate_bootstrap_bundle c (some eb) key signer agent (some rs) now s).0
                ≡ (rs.reserve eb.bootstrap_id s).0))
        ⊎ (((rs.reserve eb.bootstrap_id s).1 ≡ true)
            × ((validate_bootstrap_bundle c (some eb) key signer agent (some rs) now s).0
                ≡ (rs.release eb.bootstrap_id (rs.reserve eb.bootstrap_id s).0).0))
  unfolding validate_bootstrap_bundle validate_checked finish
  validate_refused eb key signer agent rs now s e h = checked (check_outer c eb key signer agent) h
    where
      finished :
          (r : Result BundleData)
          → (finish c rs eb.bootstrap_id (rs.reserve eb.bootstrap_id s).0 r).1 ≡ err e
          → (finish c rs eb.bootstrap_id (rs.reserve eb.bootstrap_id s).0 r).0
            ≡ (rs.release eb.bootstrap_id (rs.reserve eb.bootstrap_id s).0).0
      finished (ok b) p = absurd (ground (arith, p))
      finished (err e') p = refl

      checked :
          (r : Result (Unit {0}))
          → (validate_checked c rs eb key agent now s r).1 ≡ err e
          → ((validate_checked c rs eb key agent now s r).0 ≡ s)
            ⊎ (((rs.reserve eb.bootstrap_id s).1 ≡ false)
                × ((validate_checked c rs eb key agent now s r).0
                    ≡ (rs.reserve eb.bootstrap_id s).0))
            ⊎ (((rs.reserve eb.bootstrap_id s).1 ≡ true)
                × ((validate_checked c rs eb key agent now s r).0
                    ≡ (rs.release eb.bootstrap_id (rs.reserve eb.bootstrap_id s).0).0))
      checked (err e') p = inl refl
      checked (ok u) p = elim (Bool-cases (rs.reserve eb.bootstrap_id s).1) [
        | inr failed ↦ inr (inl (failed, rw (failed, validate_checked) refl))
        | inl reserved ↦ inr (
            inr (
              reserved,
              rw (reserved, validate_checked)
                  (finished (open_bundle c eb key agent now)
                    (rw (reserved, validate_checked) at p)),
            ))
      ]
