-- ===== src/Coordinator/Server/Guessed.antt =====
-- After a pairing, and after six guesses: requests on all routes.
use Prim.Native.String.{◌++◌}
use forge_grid.Prelude.{
  ℕ, suc, ◌+◌, ◌≤◌, ◌<◌, String, ◌≡◌, ◌≢◌, sym, ap, ◌∙◌, true, false, List, [], ◌∷◌, arith, All,
  subst, if◌then◌else◌,
}
use forge_grid.Bridge.Models.{Time}
use forge_grid.Coordinator.Models.{CoordinatorState}
use forge_grid.Coordinator.Store.{Store}
use forge_grid.Coordinator.Requests.{Reply, success, PairRequest, Libraries, paired}
use forge_grid.Coordinator.Pairing.{pair}
use forge_grid.Coordinator.Pairing.Once.{
  IsGuess, pair_used, pair_closes, pair_guess, guess_is_pair, pair_locked,
}
use forge_grid.Coordinator.Server.{to_code, to_pair, route_of, Context}
use forge_grid.Coordinator.Server.Tokens.{IsOld, same-IsOld, chain-IsOld, equal-IsOld}
use forge_grid.Coordinator.Server.Shut.{
  Turn, is_other, answered, serve_all, answered-Inherits, answered_pair, serve_all_kept,
}

-- How many of the requests the route of the pairing does not take.
abbrev pub pairings : List Turn → ℕ
pairings [] = 0
pairings (t ∷ ts) =
    let rest = pairings ts in if is_other (route_of t.request.path) then rest else suc rest

module _ {D : Type 0} (libs : Libraries D) (context : Context) where
  -- Once a pairing request has been answered with a worker, no request that does not generate a new
  -- code, on whatever route, adds a worker or changes a token: after any sequence of such requests each
  -- worker is one that was registered before them, with the hash of its token unchanged.
  pub pair_once :
      (token random_id : String) (req : PairRequest) (now : Time) (s : Store D) (later : List Turn)
      → (pair libs token random_id req now s).1 ≡ success (paired ("worker-" ++ random_id) token)
      → All (λ (t : Turn). route_of t.request.path ≢ to_code) later
      → let s' = (pair libs token random_id req now s).0 in
        IsOld s'.workers (serve_all libs context later s').workers
  pair_once token random_id req now s later h all =
      (serve_all_kept libs context (λ c. c.pairing_code ≡ "") (pair_used libs) later
        (pair libs token random_id req now s).0 all
        (pair_closes libs token random_id req now s h)).0

  -- A guess, or a request on another route that does not generate a code.
  pub data IsTry (code : String) (t : Turn) : Type 0 where
    guess : route_of t.request.path ≡ to_pair → IsGuess libs code t.request → IsTry code t
    another : is_other (route_of t.request.path) ≡ true → IsTry code t

  pair_stuck :
      (token random_id : String) (req : PairRequest) (now : Time) (s : Store D)
      → 5 < s.config.pairing_failures
      → ((pair libs token random_id req now s).0.workers ≡ s.workers)
        × (5 < (pair libs token random_id req now s).0.config.pairing_failures)
  pair_stuck token random_id req now s f =
      let same = pair_locked libs token random_id req now s f in
      (
        ap (λ (u : Store D). u.workers) same,
        subst (λ (u : Store D). 5 < u.config.pairing_failures) (sym same) f,
      )

  -- What the guesses among the requests do to the counter.
  serve_all_counted :
      (ts : List Turn) (s : Store D)
      → All (IsTry s.config.pairing_code) ts
      → IsOld s.workers (serve_all libs context ts s).workers
        × (6 ≤ s.config.pairing_failures + pairings ts
            → 5 < (serve_all libs context ts s).config.pairing_failures)
  unfolding serve_all
  serve_all_counted [] s all = (same-IsOld s.workers, λ e. omega (arith, e))
  serve_all_counted (t ∷ ts) s (another other, all) =
      let i = answered-Inherits libs context t s other in
      let (old, counted) =
        serve_all_counted ts (answered libs context t s)
          (subst (λ (c : CoordinatorState). All (IsTry c.pairing_code) ts) (sym i.config) all) in
      (
        chain-IsOld s.workers (answered libs context t s).workers _ i.workers old,
        λ e. counted (
            subst (λ (c : CoordinatorState). 6 ≤ c.pairing_failures + pairings ts) (sym i.config)
              (ground (arith, e, other))),
      )
  serve_all_counted (t ∷ ts) s (guess pairing g, all) =
      let step =
        answered_pair libs context t s pairing
        ∙ ap (λ (p : Store D × Reply). p.0)
            (guess_is_pair libs t.random.secret t.random.text s.config.pairing_code t.request t.now
              s g) in
      let s1 = (pair libs t.random.secret t.random.text g.body t.now s).0 in
      let (kept, same_code, counted, still) =
        pair_guess libs t.random.secret t.random.text g.body t.now s g.named g.short g.wrong in
      let (old, enough) =
        serve_all_counted ts s1
          (subst (λ (code : String). All (IsTry code) ts) (sym same_code) all) in
      let a_pairing : is_other (route_of t.request.path) ≡ false = ap is_other pairing in
      subst
        (λ (u : Store D).
          IsOld s.workers (serve_all libs context ts u).workers
          × (6 ≤ s.config.pairing_failures + pairings (t ∷ ts)
              → 5 < (serve_all libs context ts u).config.pairing_failures))
        (sym step)
        (
          chain-IsOld s.workers s1.workers _ (equal-IsOld s.workers s1.workers kept) old,
          λ e. enough (ground (arith, e, counted, still, a_pairing)),
        )

  -- Six wrong guesses of the code, those counted before them included, block the pairing, whatever
  -- requests on other routes that do not generate a code come between them: after any sequence of
  -- requests that do not generate a code, pairing requests with the right code included, it is still
  -- blocked, and each worker is one that was registered before the guesses, with the hash of its token
  -- unchanged.
  pub serve_all_six :
      (guesses later : List Turn) (s : Store D)
      → All (IsTry s.config.pairing_code) guesses
      → 6 ≤ s.config.pairing_failures + pairings guesses
      → All (λ (t : Turn). route_of t.request.path ≢ to_code) later
      → let t = serve_all libs context later (serve_all libs context guesses s) in
        IsOld s.workers t.workers × (5 < t.config.pairing_failures)
  serve_all_six guesses later s all enough others =
      let s1 = serve_all libs context guesses s in
      let (old, locked) = serve_all_counted guesses s all in
      let (older, still) =
        serve_all_kept libs context (λ c. 5 < c.pairing_failures) pair_stuck later s1 others
          (locked enough) in
      (chain-IsOld s.workers s1.workers _ old older, still)
