-- ===== src/Bridge/Auth.antt =====
-- internal/agentbridge/server.go: the failure counters by address, `authenticate` and `cleanupLoop`.
-- `authenticate` takes the server's mutex twice; each locked block is a step of its own here.
pub mod Credentials
pub mod Lockout
pub mod Table
use forge_grid.Prelude.{
  ℕ, ◌+◌, ◌*◌, ◌^◌, String, Char, code, Bool, true, false, Option, none, some, List, [], ◌∷◌, ◌==◌,
  ltb, length, get_or, if◌then◌else◌, cut_prefix, cut_at, before_last,
}
use forge_grid.Dict.{Dict, lookup, insert, delete}
use forge_grid.Bridge.Models.{Time, AgentRegistration}
use forge_grid.Bridge.Store.{Store, get_agent}

-- The fields `rates` and `reset` of Server.
pub record Limiter : Type 0 where
  pub rates : Dict ℕ
  pub reset : Dict Time

abbrev pub empty_limiter : Limiter
empty_limiter = record { rates = []; reset = [] }

-- time.Minute
abbrev pub minute : Time
minute = 60 * 10 ^ 9

-- s.rates[ip]: a missing entry counts 0.
abbrev pub rate_of : String → Limiter → ℕ
rate_of ip l = get_or (lookup ip l.rates) 0

abbrev pub forget : String → Limiter → Limiter
forget ip l = record { rates = delete ip l.rates; reset = delete ip l.reset }

-- now.After(t)
abbrev pub is_after : Time → Option Time → Bool
is_after now none = false
is_after now (some t) = ltb t now

-- The first locked block: false means that the address is blocked.
unfoldable pub admit : String → Time → Limiter → Limiter × Bool
admit ip now l =
    let l' = if is_after now (lookup ip l.reset) then forget ip l else l in
    if ltb 10 (rate_of ip l')
    then (record l' { reset = insert ip (now + minute) l'.reset }, false)
    else (l', true)

-- `fail`
unfoldable pub note_failure : String → Limiter → Limiter
note_failure ip l =
    let rates = insert ip (rate_of ip l + 1) l.rates in
    if ltb 20000 (length rates) then empty_limiter else record l { rates = rates }

unfoldable pub note_success : String → Limiter → Limiter
note_success ip l = forget ip l

-- The address without its port.
unfoldable pub address_of : String → String
address_of remote = get_or (before_last b':' remote) remote

-- The agent's name and secret in the Authorization header.
unfoldable pub credentials : String → Option (String × String)
credentials header = elim (cut_prefix "Bearer " header) [
  | none ↦ none
  | some token ↦ cut_at b':' token
]

-- The hash is sha256 in hexadecimal, and ConstantTimeCompare is equality.
unfoldable pub check_secret : (String → String) → String → Option AgentRegistration → Bool
check_secret sha256_hex secret none = false
check_secret sha256_hex secret (some agent) = agent.token_hash == sha256_hex secret

module _ {D : Type 0} (sha256_hex : String → String) where
  unfoldable pub check_header : String → Store D → Option String
  unfolding check_secret get_agent
  check_header header s = elim (credentials header) [
    | none ↦ none
    | some (name, secret) ↦
        if check_secret sha256_hex secret (get_agent name s) then some name else none
  ]

  -- `none` is the result false.
  unfoldable pub authenticate : String → String → Time → Store D → Limiter → Limiter × Option String
  authenticate remote header now s l =
      let ip = address_of remote in
      let (l', admitted) = admit ip now l in
      let agent = check_header header s in
      if admitted
      then elim agent [
        | none ↦ (note_failure ip l', none)
        | some name ↦ (note_success ip l', some name)
      ]
      else (l', none)

-- One round of cleanupLoop.
unfoldable pub sweep : Time → List (String × Time) → Limiter → Limiter
sweep now [] l = l
sweep now ((ip, t) ∷ resets) l = sweep now resets (if ltb t now then forget ip l else l)

unfoldable pub cleanup : Time → Limiter → Limiter
unfolding sweep
cleanup now l = if ltb 10000 (length l.rates) then empty_limiter else sweep now l.reset l
