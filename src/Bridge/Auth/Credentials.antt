-- ===== src/Bridge/Auth/Credentials.antt =====
-- Whom `authenticate` accepts.
use Prim.Native.String.{◌++◌, ◌∷◌ as ◌∷ˢ◌}
use text.Mathlib.TextLemmas.{cons-append, nil-append}
use forge_grid.Prelude.{
  none-ne-some, subst, String, Char, ◌≡◌, refl, sym, ap, ◌∙◌, true, Option, none, some, eq_iff,
  eq_refl, Bool-cases, Option-cases, inl, inr, ◌↔◌, cut_prefix, cut_prefix-append, cut_prefix_sound,
  cut_at-append, cut_at_sound, IsWithout, false≢true,
}
use forge_grid.Dict.{lookup}
use forge_grid.Bridge.Models.{Time, AgentRegistration}
use forge_grid.Bridge.Store.{Store, get_agent}
use forge_grid.Bridge.Auth.{
  Limiter, admit, address_of, credentials, check_secret, check_header, authenticate,
}

-- The header that the clients of internal/agentbridge/client.go send.
abbrev pub bearer : String → String → String
bearer name secret = "Bearer " ++ (name ++ (":" ++ secret))

abbrev colon : Char
colon = ":"

colon-append : (s : String) → ":" ++ s ≡ colon ∷ˢ s
colon-append s = cons-append colon String.[] s ∙ ap (λ (t : String). colon ∷ˢ t) (nil-append s)

credentials-bearer :
    (name secret : String)
    → IsWithout b':' name
    → credentials (bearer name secret) ≡ some (name, secret)
unfolding credentials
credentials-bearer name secret h =
    rw (cut_prefix-append "Bearer " (name ++ (":" ++ secret)), credentials)
      (rw (colon-append secret) (cut_at-append colon name secret h))

credentials_sound :
    (header name secret : String)
    → credentials header ≡ some (name, secret)
    → (header ≡ bearer name secret) × IsWithout b':' name
unfolding credentials
credentials_sound header name secret h = elim (Option-cases (cut_prefix "Bearer " header)) [
  | inl missed ↦ absurd (none-ne-some (sym (rw (missed, credentials) at h)))
  | inr (token, found) ↦
      let (split, free) = cut_at_sound colon token name secret (rw (found, credentials) at h) in
      (
        cut_prefix_sound "Bearer " header token found
            ∙ ap (λ (t : String). "Bearer " ++ t)
                (split ∙ ap (λ (t : String). name ++ t) (sym (colon-append secret))),
        free,
      )
]

check_secret_sound :
    (sha256_hex : String → String) (secret : String) (o : Option AgentRegistration)
    → check_secret sha256_hex secret o ≡ true
    → (agent : AgentRegistration) × (o ≡ some agent) × (agent.token_hash ≡ sha256_hex secret)
unfolding check_secret
check_secret_sound sha256_hex secret none h = absurd (false≢true h)
check_secret_sound sha256_hex secret (some agent) h = (agent, refl, (eq_iff _ _).0 h)

module _ {D : Type 0} (sha256_hex : String → String) where
  -- An agent that proved to hold the secret of its name.
  pub record IsGenuine (header name : String) (s : Store D) : Type 0 where
    pub secret : String
    pub agent : AgentRegistration
    pub header_is : header ≡ bearer name secret
    pub plain : IsWithout b':' name
    pub registered : lookup name s.agents ≡ some agent
    pub matching : agent.token_hash ≡ sha256_hex secret

  check_header_sound :
      (header name : String) (s : Store D)
      → check_header sha256_hex header s ≡ some name
      → IsGenuine header name s
  unfolding check_header get_agent
  check_header_sound header name s h = elim (Option-cases (credentials header)) [
    | inl missed ↦ absurd (none-ne-some (sym (rw (missed, check_header) at h)))
    | inr ((name', secret), found) ↦
        let (header_is, plain) = credentials_sound header name' secret found in
        elim (Bool-cases (check_secret sha256_hex secret (get_agent name' s))) [
          | inr bad ↦ absurd (none-ne-some (sym (rw bad at (rw (found, check_header) at h))))
          | inl good ↦
              let (agent, registered, matching) =
                check_secret_sound sha256_hex secret (get_agent name' s) good in
              let same : some name' ≡ some name = rw good at (rw (found, check_header) at h) in
              let e : name' ≡ name = cc in
              subst (λ n. IsGenuine header n s) e
                (record {
                  secret = secret;
                  agent = agent;
                  header_is = header_is;
                  plain = plain;
                  registered = registered;
                  matching = matching;
                })
        ]
  ]

  check_header_complete :
      (header name : String) (s : Store D)
      → IsGenuine header name s
      → check_header sha256_hex header s ≡ some name
  unfolding check_header
  check_header_complete header name s g = rw g.header_is (
      rw (credentials-bearer name g.secret g.plain, check_header)
        (rw g.registered (rw g.matching (rw eq_refl))))

  -- A request is let in exactly when its address is not blocked and its header is
  -- "Bearer <name>:<secret>" for a registered agent whose stored hash is that of the secret.
  pub authenticate_iff :
      (remote header name : String) (now : Time) (s : Store D) (l : Limiter)
      → ((authenticate sha256_hex remote header now s l).1 ≡ some name)
        ↔ (((admit (address_of remote) now l).1 ≡ true) × IsGenuine header name s)
  unfolding authenticate
  authenticate_iff remote header name now s l = (
    λ h.
        let admitted = (admit (address_of remote) now l).1 in
        elim (Bool-cases admitted) [
          | inr blocked ↦ absurd (none-ne-some (sym (rw blocked at h)))
          | inl open' ↦ elim (Option-cases (check_header sha256_hex header s)) [
            | inl refused ↦ absurd (none-ne-some (sym (rw refused at (rw open' at h))))
            | inr (name', found) ↦
                (open', check_header_sound header name s (found ∙ (rw found at (rw open' at h))))
          ]
        ],
    λ (admitted, g). rw admitted (rw (check_header_complete header name s g)),
  )
