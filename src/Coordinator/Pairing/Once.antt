-- ===== src/Coordinator/Pairing/Once.antt =====
-- `handlePair`: which requests it accepts, and what it does with the others.
use Prim.Native.String.{◌++◌}
use forge_grid.Bootstrap.Bytes.{byte_len}
use forge_grid.Prelude.{◌+◌, ◌≤◌, ◌<◌, String, ◌≡◌, ◌≢◌, refl, ◌⊎◌, ◌↔◌, arith, eq_iff}
use forge_grid.Bridge.Models.{Time}
use forge_grid.Coordinator.Models.{CoordinatorState}
use forge_grid.Coordinator.Store.{Store, save}
use forge_grid.Coordinator.Requests.{
  Request, success, write_error, PairRequest, parsed, Libraries, paired,
}
use forge_grid.Coordinator.Pairing.{is_refused, pair, pair_parsed, handle_pair}

-- The request that handlePair accepts.
pub record IsAdmitted (req : PairRequest) (now : Time) (cfg : CoordinatorState) : Type 0 where
  pub named : req.node_name ≢ ""
  pub short : byte_len req.node_name ≤ 64
  pub unlocked : cfg.pairing_failures ≤ 5
  pub open_code : cfg.pairing_code ≢ ""
  pub right_code : cfg.pairing_code ≡ req.code
  pub alive : now ≤ cfg.pairing_expiry

module _ {D : Type 0} (libs : Libraries D) where
  open libs use {os, store_json, request_json}

  -- A request is answered with a new worker's id and token exactly when it is admitted: its node name
  -- has 1 to 64 bytes, at most five guesses failed before it, and its code is the one that was
  -- generated, which has not been used and has not expired.
  pub pair_iff :
      (token random_id : String) (req : PairRequest) (now : Time) (s : Store D)
      → ((pair libs token random_id req now s).1 ≡ success (paired ("worker-" ++ random_id) token))
        ↔ IsAdmitted req now s.config
  unfolding pair write_error is_refused
  pair_iff token random_id req now s = (
    λ h. record {
      named = ground (arith, eq_iff req.node_name "");
      short = ground arith;
      unlocked = ground arith;
      open_code = ground (arith, eq_iff s.config.pairing_code "");
      right_code = ground (arith, eq_iff s.config.pairing_code req.code);
      alive = ground arith;
    },
    λ a. ground (
      arith,
      a.named,
      a.short,
      a.unlocked,
      a.open_code,
      a.right_code,
      a.alive,
      eq_iff req.node_name "",
      eq_iff s.config.pairing_code "",
      eq_iff s.config.pairing_code req.code,
    ),
  )

  -- A request that is not admitted makes no worker.
  pub pair_used :
      (token random_id : String) (req : PairRequest) (now : Time) (s : Store D)
      → s.config.pairing_code ≡ ""
      → ((pair libs token random_id req now s).0.workers ≡ s.workers)
        × ((pair libs token random_id req now s).0.config.pairing_code ≡ "")
  unfolding pair is_refused save
  pair_used token random_id req now s e = (
    ground (arith, eq_iff s.config.pairing_code ""),
    ground (arith, eq_iff s.config.pairing_code ""),
  )

  pub pair_closes :
      (token random_id : String) (req : PairRequest) (now : Time) (s : Store D)
      → (pair libs token random_id req now s).1 ≡ success (paired ("worker-" ++ random_id) token)
      → (pair libs token random_id req now s).0.config.pairing_code ≡ ""
  unfolding pair write_error save
  pair_closes token random_id req now s h = ground arith

  -- A guess: a request with a good name and another code than the one that was generated.
  pub record IsGuess (code : String) (r : Request) : Type 0 where
    pub body : PairRequest
    pub read : request_json.decode_pair 4096 r.body ≡ parsed body
    pub named : body.node_name ≢ ""
    pub short : byte_len body.node_name ≤ 64
    pub wrong : body.code ≢ code

  pub pair_guess :
      (token random_id : String) (req : PairRequest) (now : Time) (s : Store D)
      → req.node_name ≢ ""
      → byte_len req.node_name ≤ 64
      → req.code ≢ s.config.pairing_code
      → ((pair libs token random_id req now s).0.workers ≡ s.workers)
        × ((pair libs token random_id req now s).0.config.pairing_code ≡ s.config.pairing_code)
        × ((5 < s.config.pairing_failures)
            ⊎ ((pair libs token random_id req now s).0.config.pairing_failures
                ≡ s.config.pairing_failures + 1))
        × ((5 < s.config.pairing_failures)
            → 5 < (pair libs token random_id req now s).0.config.pairing_failures)
  unfolding pair is_refused save
  pair_guess token random_id req now s n l w = (
    ground (arith, n, l, w, eq_iff req.node_name "", eq_iff s.config.pairing_code req.code),
    ground (arith, n, l, w, eq_iff req.node_name "", eq_iff s.config.pairing_code req.code),
    ground (arith, n, l, w, eq_iff req.node_name "", eq_iff s.config.pairing_code req.code),
    λ f. ground (arith, f),
  )

  pub guess_is_pair :
      (token random_id code : String) (r : Request) (now : Time) (s : Store D) (g : IsGuess code r)
      → handle_pair libs token random_id r now s ≡ pair libs token random_id g.body now s
  unfolding handle_pair pair_parsed
  guess_is_pair token random_id code r now s g = rw (g.read, pair_parsed) refl

  pub pair_locked :
      (token random_id : String) (req : PairRequest) (now : Time) (s : Store D)
      → 5 < s.config.pairing_failures
      → (pair libs token random_id req now s).0 ≡ s
  unfolding pair
  pair_locked token random_id req now s f = ground (arith, f)
