-- ===== src/Bridge/Auth/Table.antt =====
-- The size of the counter table, and the round of `cleanupLoop`.
use forge_grid.Prelude.{
  ◌+◌, ◌≤◌, String, ◌≡◌, ◌≢◌, refl, none, [], ◌∷◌, arith, eq_iff, Bool-cases, inl, inr,
  if◌then◌else◌, ltb, length, ◌⊎◌,
}
use forge_grid.Dict.{Dict, lookup, insert, delete, lookup-insert, lookup-delete}
use forge_grid.Dict.Keys.{IsDistinct, length-insert, length-delete}
use forge_grid.Bridge.Models.{Time}
use forge_grid.Bridge.Store.{Store}
use forge_grid.Bridge.Auth.{
  Limiter, minute, empty_limiter, forget, rate_of, is_after, admit, note_failure, note_success,
  address_of, authenticate, sweep, cleanup,
}

length-admit :
    (ip : String) (now : Time) (l : Limiter) → length (admit ip now l).0.rates ≤ length l.rates
unfolding admit
length-admit ip now l = ground (arith, length-delete ip l.rates)

-- The address has the same counter and the same block.
pub record SameAt (ip : String) (l l' : Limiter) : Type 0 where
  pub rate : lookup ip l'.rates ≡ lookup ip l.rates
  pub until : lookup ip l'.reset ≡ lookup ip l.reset

module _ (ip other : String) where
  admit_other : (now : Time) (l : Limiter) → ip ≢ other → SameAt other l (admit ip now l).0
  unfolding admit
  admit_other now l h = ground (
    arith,
    h,
    eq_iff ip other,
    lookup-delete ip other l.rates,
    lookup-delete ip other l.reset,
    lookup-insert ip other (now + minute) (delete ip l.reset),
    lookup-insert ip other (now + minute) l.reset,
  )

  note_success_other : (l : Limiter) → ip ≢ other → SameAt other l (note_success ip l)
  unfolding note_success
  note_success_other l h =
      ground
        (arith, h, eq_iff ip other, lookup-delete ip other l.rates, lookup-delete ip other l.reset)

  note_failure_other :
      (l : Limiter)
      → ip ≢ other
      → SameAt other l (note_failure ip l)
        ⊎ ((20000 ≤ length l.rates) × (note_failure ip l ≡ empty_limiter))
  unfolding note_failure
  note_failure_other l h =
      elim (Bool-cases (ltb 20000 (length (insert ip (rate_of ip l + 1) l.rates)))) [
        | inl full ↦ inr (ground (arith, length-insert ip (rate_of ip l + 1) l.rates), rw full)
        | inr room ↦ inl (
            rw room (
              ground
                (arith, h, eq_iff ip other, lookup-insert ip other (rate_of ip l + 1) l.rates)))
      ]

module _ {D : Type 0} (sha256_hex : String → String) where
  -- No request lets the table grow past 20000 addresses.
  pub authenticate_bounded :
      (remote header : String) (now : Time) (s : Store D) (l : Limiter)
      → length l.rates ≤ 20000
      → length (authenticate sha256_hex remote header now s l).0.rates ≤ 20000
  unfolding authenticate note_failure note_success
  authenticate_bounded remote header now s l h =
      let l' = (admit (address_of remote) now l).0 in
      ground (
        arith,
        length-admit (address_of remote) now l,
        length-delete (address_of remote) l'.rates,
        length-insert (address_of remote) (rate_of (address_of remote) l' + 1) l'.rates,
      )

  -- A request touches no other address, unless the table overflows and is emptied.
  pub authenticate_other :
      (remote header other : String) (now : Time) (s : Store D) (l : Limiter)
      → address_of remote ≢ other
      → SameAt other l (authenticate sha256_hex remote header now s l).0
        ⊎ ((20000 ≤ length l.rates)
            × ((authenticate sha256_hex remote header now s l).0 ≡ empty_limiter))
  unfolding authenticate
  authenticate_other remote header other now s l h =
      let ip = address_of remote in
      let l' = (admit ip now l).0 in
      ground (
        arith,
        length-admit ip now l,
        admit_other ip other now l h,
        note_failure_other ip other l' h,
        note_success_other ip other l' h,
      )

sweep_rates :
    (now : Time) (resets : Dict Time) (ip : String) (l : Limiter)
    → IsDistinct resets
    → lookup ip (sweep now resets l).rates
      ≡ (if is_after now (lookup ip resets) then none else lookup ip l.rates)
unfolding sweep lookup
sweep_rates now [] ip l d = refl
sweep_rates now ((j, t) ∷ more) ip l d =
    let l' = if ltb t now then forget j l else l in
    ground (arith, sweep_rates now more ip l' d.1, d.0, eq_iff j ip, lookup-delete j ip l.rates)

-- A round of the cleanup leaves at most 10000 addresses.
length-sweep :
    (now : Time) (resets : Dict Time) (l : Limiter)
    → length (sweep now resets l).rates ≤ length l.rates
unfolding sweep
length-sweep now [] l = omega arith
length-sweep now ((j, t) ∷ more) l =
    ground
      (arith, length-sweep now more (if ltb t now then forget j l else l), length-delete j l.rates)

-- After a round of the cleanup at most 10000 addresses are counted. If there were no more before,
-- the round drops exactly the counters whose block has ended; one with no block stays.
pub cleanup_exact :
    (now : Time) (l : Limiter)
    → IsDistinct l.reset
    → (length (cleanup now l).rates ≤ 10000)
      × (length l.rates ≤ 10000
          → (ip : String)
          → lookup ip (cleanup now l).rates
            ≡ (if is_after now (lookup ip l.reset) then none else lookup ip l.rates))
unfolding cleanup
cleanup_exact now l d = (
  ground (arith, length-sweep now l.reset l),
  λ few ip. ground (arith, few, sweep_rates now l.reset ip l d),
)
