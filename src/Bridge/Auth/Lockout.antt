-- ===== src/Bridge/Auth/Lockout.antt =====
-- The failure counter of an address, over a sequence of requests from it.
use forge_grid.Prelude.{
  ℕ, ◌+◌, ◌≤◌, ◌<◌, String, ◌≡◌, true, Option, none, some, List, [], ◌∷◌, arith, eq_iff, eq_refl,
  if◌then◌else◌, ltb, length, All,
}
use forge_grid.Dict.{lookup, lookup-insert, lookup-delete}
use forge_grid.Dict.Keys.{length-insert}
use forge_grid.Bridge.Models.{Time}
use forge_grid.Bridge.Store.{Store}
use forge_grid.Bridge.Auth.{
  Limiter, minute, rate_of, admit, note_failure, address_of, check_header, authenticate,
}

-- A request, as far as `authenticate` reads it, and the time at which it comes.
pub record Attempt : Type 0 where
  pub remote : String
  pub header : String
  pub at : Time

module _ {D : Type 0} (sha256_hex : String → String) (s : Store D) where
  unfoldable pub attempts : List Attempt → Limiter → Limiter
  attempts [] l = l
  attempts (a ∷ more) l = attempts more (authenticate sha256_hex a.remote a.header a.at s l).0

  -- A request from the address that proves nothing.
  abbrev pub IsBad : String → Attempt → Type 0
  IsBad ip a = (address_of a.remote ≡ ip) × (check_header sha256_hex a.header s ≡ none)

  fail_once :
      (ip : String) (k : ℕ) (a : Attempt) (l : Limiter)
      → k ≤ 10
      → IsBad ip a
      → (lookup ip l.reset ≡ none) × (rate_of ip l ≡ k) × (length l.rates < 20000)
      → let l' = (authenticate sha256_hex a.remote a.header a.at s l).0 in
        (lookup ip l'.reset ≡ none)
        × (rate_of ip l' ≡ k + 1)
        × (length l'.rates ≤ length l.rates + 1)
  unfolding authenticate admit note_failure
  fail_once ip k a l h (from, bad) (unset, counted, fits) = ground (
    arith,
    bad,
    from,
    unset,
    counted,
    fits,
    length-insert (address_of a.remote) (rate_of (address_of a.remote) l + 1) l.rates,
    lookup-insert (address_of a.remote) ip (rate_of (address_of a.remote) l + 1) l.rates,
    eq_iff (address_of a.remote) ip,
  )

  failures_counted :
      (ip : String) (k : ℕ) (bad : List Attempt) (l : Limiter)
      → k + length bad ≤ 11
      → All (IsBad ip) bad
      → lookup ip l.reset ≡ none
      → rate_of ip l ≡ k
      → length l.rates + length bad ≤ 20000
      → (lookup ip (attempts bad l).reset ≡ none) × (rate_of ip (attempts bad l) ≡ k + length bad)
  unfolding attempts
  failures_counted ip k [] l few all unset counted fits = (unset, omega arith)
  failures_counted ip k (a ∷ more) l few all unset counted fits =
      let (unset', counted', grown) =
        fail_once ip k a l (omega arith) all.0 (unset, counted, omega arith) in
      let (unset'', counted'') =
        failures_counted ip (k + 1) more (authenticate sha256_hex a.remote a.header a.at s l).0
          (omega arith) all.1 unset' counted' (omega arith) in
      (unset'', omega arith)

  -- After up to eleven bad requests in a row from an address without failures or a block, on a table
  -- that with them has at most 20000 addresses, a request from it that carries a registered agent's
  -- secret is accepted if there were at most ten, and refused if there were eleven.
  pub lockout_exact :
      (ip remote header name : String) (now : Time) (bad : List Attempt) (l : Limiter)
      → length bad ≤ 11
      → All (IsBad ip) bad
      → lookup ip l.reset ≡ none
      → rate_of ip l ≡ 0
      → length l.rates + length bad ≤ 20000
      → address_of remote ≡ ip
      → check_header sha256_hex header s ≡ some name
      → (authenticate sha256_hex remote header now s (attempts bad l)).1
        ≡ (if ltb 10 (length bad) then none else some name)
  unfolding authenticate admit
  lockout_exact ip remote header name now bad l few all unset counted fits from good =
      ground (arith, failures_counted ip 0 bad l (omega arith) all unset counted fits, from, good)

  -- Requests that come at most a minute after one another, the first a minute after `since`.
  abbrev pub IsPersistent : String → Time → List Attempt → Type 0
  IsPersistent ip since [] = Unit
  IsPersistent ip since (a ∷ more) =
      (address_of a.remote ≡ ip) × (a.at ≤ since + minute) × IsPersistent ip a.at more

  -- The answers to a sequence of requests.
  unfoldable pub answers : List Attempt → Limiter → List (Option String)
  answers [] l = []
  answers (a ∷ more) l =
      let (l', answer) = authenticate sha256_hex a.remote a.header a.at s l in
      answer ∷ answers more l'

  refuse_once :
      (ip : String) (since : Time) (a : Attempt) (l : Limiter)
      → address_of a.remote ≡ ip
      → a.at ≤ since + minute
      → 10 < rate_of ip l
      → lookup ip l.reset ≡ some (since + minute)
      → let r = authenticate sha256_hex a.remote a.header a.at s l in
        (r.1 ≡ none) × (10 < rate_of ip r.0) × (lookup ip r.0.reset ≡ some (a.at + minute))
  unfolding authenticate admit
  refuse_once ip since a l from soon many set = ground (
    arith,
    from,
    soon,
    many,
    set,
    lookup-insert (address_of a.remote) ip (a.at + minute) l.reset,
    eq_iff (address_of a.remote) ip,
  )

  -- A blocked address that asks again within each minute is never let in, whatever it sends.
  pub block_renewed :
      (ip : String) (since : Time) (requests : List Attempt) (l : Limiter)
      → 10 < rate_of ip l
      → lookup ip l.reset ≡ some (since + minute)
      → IsPersistent ip since requests
      → All (λ answer. answer ≡ none) (answers requests l)
  unfolding answers
  block_renewed ip since [] l many set p = tt
  block_renewed ip since (a ∷ more) l many set (from, soon, later) =
      let (refused, many', set') = refuse_once ip since a l from soon many set in
      (
        refused,
        block_renewed ip a.at more (authenticate sha256_hex a.remote a.header a.at s l).0 many' set'
            later,
      )

-- A block ends: a request after the reset time is admitted, with the counter and the block cleared.
pub admit_after_reset :
    (ip : String) (now t : Time) (l : Limiter)
    → lookup ip l.reset ≡ some t
    → t < now
    → ((admit ip now l).1 ≡ true)
      × (rate_of ip (admit ip now l).0 ≡ 0)
      × (lookup ip (admit ip now l).0.reset ≡ none)
unfolding admit
admit_after_reset ip now t l set late =
    ground (arith, set, late, lookup-delete ip ip l.rates, lookup-delete ip ip l.reset, eq_refl ip)
