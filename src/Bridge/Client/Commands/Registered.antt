-- ===== src/Bridge/Client/Commands/Registered.antt =====
-- `registerCmd` of internal/agentbridge/cli.go, in front of a relay that serves.
use forge_grid.Prelude.{
  ◌≢◌, sym, none-ne-some, String, ◌≡◌, ◌↔◌, refl, ap, ◌∙◌, true, Option, none, some, arith, ◌==◌,
  eq_refl, Bool-cases, inl, inr, IsWithout, if◌then◌else◌,
}
use forge_grid.Dict.{lookup, insert, lookup-insert}
use forge_grid.Disk.{FileSystem}
use forge_grid.Bridge.Models.{Time, AgentRegistration, StoreJson}
use forge_grid.Bridge.Store.{Store, Result, ok, err, save, new_store, register_agent}
use forge_grid.Bridge.Store.Persist.{new_store-save}
use forge_grid.Bridge.Auth.{Limiter, admit, address_of, authenticate}
use forge_grid.Bridge.Auth.Credentials.{bearer, authenticate_iff}

pub data RegisterResult : Type 0 where
  registered : String → RegisterResult
  no_name no_store no_secret unsaved : RegisterResult

module _ {D : Type 0} (os : FileSystem D) (json : StoreJson) (sha256_hex : String → String) where
  -- On the store that was loaded; the secret is what rand.Read gave, in hexadecimal.
  unfoldable pub register_in : String → Option String → Time → Store D → D × RegisterResult
  register_in name none now s = (s.disk, no_secret)
  register_in name (some secret) now s =
      let (s', saved) = register_agent os json name (sha256_hex secret) now s in
      (s'.disk, if saved then registered secret else unsaved)

  unfoldable pub register_loaded :
      String → Option String → Time → D → Result (Store D) → D × RegisterResult
  unfolding register_in
  register_loaded name secret now d (err e) = (d, no_store)
  register_loaded name secret now d (ok s) = register_in name secret now s

  unfoldable pub register_command : String → Option String → Time → D → D × RegisterResult
  unfolding register_loaded
  register_command name secret now d =
      if name == ""
      then (d, no_name)
      else register_loaded name secret now d (new_store os json true true d)

module _ {D : Type 0} (os : FileSystem D) (json : StoreJson) (sha256_hex : String → String) where
  -- What a registration left on the disk.
  record IsRegistered (name secret : String) (d : D) : Type 0 where
    pub loaded : Store D
    pub found : new_store os json true true d ≡ ok loaded
    pub agent : AgentRegistration
    pub known : lookup name loaded.agents ≡ some agent
    pub hashed : agent.token_hash ≡ sha256_hex secret

  register_in-IsRegistered :
      (name given secret : String) (now : Time) (s : Store D)
      → (register_in os json sha256_hex name (some given) now s).1 ≡ registered secret
      → IsRegistered name secret (register_in os json sha256_hex name (some given) now s).0
  unfolding register_in register_agent save
  register_in-IsRegistered name given secret now s done =
      let agent : AgentRegistration = record {
        name = name;
        token_hash = sha256_hex given;
        created_at = now;
      } in
      let s1 : Store D = record s { agents = insert name agent s.agents } in
      let saved : (save os json s1).1 ≡ true = ground (arith, done) in
      let (t, found, same) = new_store-save os json s1 saved in
      record {
        loaded = t;
        found = found;
        agent = agent;
        known =
            same.same_agents name ∙ lookup-insert name name agent s.agents ∙ rw (eq_refl name) refl;
        hashed = ap sha256_hex (ground (arith, done, saved));
      }

  register_command-IsRegistered :
      (name secret : String) (given : Option String) (now : Time) (d : D)
      → (register_command os json sha256_hex name given now d).1 ≡ registered secret
      → IsRegistered name secret (register_command os json sha256_hex name given now d).0
  unfolding register_command
  register_command-IsRegistered name secret given now d done = elim (Bool-cases (name == "")) [
    | inl empty ↦ absurd (ground (arith, done, empty))
    | inr named ↦
        rw (named, register_command)
          (go given (new_store os json true true d) (rw (named, register_command) at done))
  ]
    where
      go :
          (o : Option String) (r : Result (Store D))
          → (register_loaded os json sha256_hex name o now d r).1 ≡ registered secret
          → IsRegistered name secret (register_loaded os json sha256_hex name o now d r).0
      go o (err e) h = absurd (ground (arith, h))
      go none (ok s) h = absurd (ground (arith, h))
      go (some text) (ok s) h = register_in-IsRegistered name text secret now s h

  -- After a registration that reports a secret, a relay that starts on the disk finds its store, and
  -- lets an address that is not blocked in under the name and the secret exactly if the name has no
  -- colon.
  pub register_then_authenticate :
      (name secret : String) (given : Option String) (now : Time) (d : D)
      → (register_command os json sha256_hex name given now d).1 ≡ registered secret
      → (s : Store D) × (new_store os json true true
            (register_command os json sha256_hex name given now d).0
          ≡ ok s)
        × ((remote : String) (later : Time) (l : Limiter)
            → ((authenticate sha256_hex remote (bearer name secret) later s l).1 ≡ some name)
              ↔ (((admit (address_of remote) later l).1 ≡ true) × IsWithout b':' name))
  register_then_authenticate name secret given now d done =
      let r = register_command-IsRegistered name secret given now d done in
      (
        r.loaded,
        r.found,
        λ remote later l.
            let iff =
              authenticate_iff sha256_hex remote (bearer name secret) name later r.loaded l in
            (
              λ entered. ((iff.0 entered).0, (iff.0 entered).1.plain),
              λ (open', plain). iff.1 (
                open',
                record {
                  secret = secret;
                  agent = r.agent;
                  header_is = refl;
                  plain = plain;
                  registered = r.known;
                  matching = r.hashed;
                },
              ),
            ),
      )

  -- The store of a relay, over the disk that another process has left.
  abbrev pub beside : Store D → D → Store D
  beside running d = record running { disk = d }

  -- A registration that reports a secret is on the disk, where a relay that starts finds the name; but
  -- a relay that loaded its store before it, and that does not know the name, drops it with its next
  -- save: a relay that starts after that does not find the name.
  pub registration_lost :
      (name secret : String) (given : Option String) (now : Time) (d : D) (running : Store D)
      → (register_command os json sha256_hex name given now d).1 ≡ registered secret
      → lookup name running.agents ≡ none
      → (save os json (beside running (register_command os json sha256_hex name given now d).0)).1
        ≡ true
      → ((s : Store D) × (new_store os json true true
              (register_command os json sha256_hex name given now d).0
            ≡ ok s)
          × (lookup name s.agents ≢ none))
        × ((t : Store D) × (new_store os json true true
                (save os json
                  (beside running (register_command os json sha256_hex name given now d).0)).0.disk
              ≡ ok t)
            × (lookup name t.agents ≡ none))
  registration_lost name secret given now d running done unknown saved =
      let r = register_command-IsRegistered name secret given now d done in
      let (t, found, same) =
        new_store-save os json
          (beside running (register_command os json sha256_hex name given now d).0) saved in
      (
        (r.loaded, r.found, λ e. none-ne-some (sym r.known ∙ e)),
        (t, found, same.same_agents name ∙ unknown),
      )
