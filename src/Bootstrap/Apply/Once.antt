-- ===== src/Bootstrap/Apply/Once.antt =====
-- A bundle over the replay store in a file: it is applied at most once.
use forge_grid.Prelude.{
  String, ◌≡◌, ◌≢◌, refl, sym, ap, ◌∙◌, Bool, true, false, Option, none, some, arith, List, All,
  subst,
}
use forge_grid.Dict.{Dict}
use forge_grid.Bridge.Models.{Time}
use forge_grid.Bootstrap.Crypto.{Crypto}
use forge_grid.Bootstrap.Validate.{ReplayStore}
use forge_grid.Bootstrap.Apply.{done, Host, Inputs, Paths, World, apply_inputs}
use forge_grid.Bootstrap.Apply.Applied.{apply_inputs-IsApplied}
use forge_grid.Replay.{ReplayState, ReplayError, ReplayJson, Calls, File, reserve, commit, release}
use forge_grid.Replay.File.{Holds}
use forge_grid.Replay.Single.{
  Operation, reserving, IsProper, run, run_all, IsUsed, run-Holds, reserve_consumed,
  commit_consumes,
}

abbrev succeeded : Option ReplayError → Bool
succeeded none = true
succeeded (some _) = false

succeeded_sound : (e : Option ReplayError) → succeeded e ≡ true → e ≡ none
succeeded_sound none h = refl
succeeded_sound (some e) h = absurd (ground (arith, h))

-- WindowsReplayStore at a time, as the interface of internal/agentbridge.
abbrev pub file_store : ReplayJson → Time → Calls → ReplayStore File
file_store json now calls = record {
  reserve = λ id file. let r = reserve json id now calls file in (r.0, succeeded r.1);
  commit = λ id file. let r = commit json id now calls file in (r.0, succeeded r.1);
  release = λ id file. let r = release json id calls file in (r.0, succeeded r.1);
}

module _ {RsaPublic RsaPrivate SignPublic SignPrivate R : Type 0}
    (c : Crypto RsaPublic RsaPrivate SignPublic SignPrivate) (host : Host R RsaPrivate SignPublic)
    (json : ReplayJson) where
  -- A bundle that was applied has a used id.
  apply_inputs-IsUsed :
      (paths : Paths) (agent : String) (now : Time) (calls : Calls) (w : World File R)
      (i : Inputs RsaPrivate SignPublic) (m : Dict ReplayState)
      → i.bundle.bootstrap_id ≢ ""
      → now ≢ 0
      → Holds json w.replays m
      → (apply_inputs c host (file_store json now calls) paths agent now w (done i)).1 ≡ none
      → IsUsed json i.bundle.bootstrap_id
          (apply_inputs c host (file_store json now calls) paths agent now w (done i)).0.replays
  unfolding run
  apply_inputs-IsUsed paths agent now calls w i m named dated held h =
      let id = i.bundle.bootstrap_id in
      let a = apply_inputs-IsApplied c host (file_store json now calls) paths agent now w i h in
      let (m', held') = run-Holds json (reserving id now calls) w.replays m (named, dated) held in
      subst (IsUsed json id) (sym a.consumed)
        (commit_consumes json id now calls (reserve json id now calls w.replays).0 m' dated held'
          (succeeded_sound _ a.committed)).1

  -- Once a bundle was applied, no run on another bundle with its id, or on itself, succeeds on that
  -- replay store, whatever was called on the store in between, if the id is not empty and the clock is
  -- past Go's zero time.
  pub apply_inputs_once :
      (paths paths' : Paths) (agent agent' : String) (now later : Time) (calls calls' : Calls)
      (w : World File R) (i i' : Inputs RsaPrivate SignPublic) (m : Dict ReplayState)
      (between : List Operation) (r : R)
      → i.bundle.bootstrap_id ≢ ""
      → now ≢ 0
      → Holds json w.replays m
      → (apply_inputs c host (file_store json now calls) paths agent now w (done i)).1 ≡ none
      → All IsProper between
      → i'.bundle.bootstrap_id ≡ i.bundle.bootstrap_id
      → (apply_inputs c host
          (file_store json later calls')
          paths'
          agent'
          later
          (record {
            replays =
                run_all json between
                  (apply_inputs c host
                    (file_store json now calls)
                    paths
                    agent
                    now
                    w
                    (done i)).0.replays;
            rest = r;
          })
          (done i')).1
        ≢ none
  apply_inputs_once paths paths' agent agent' now later calls calls' w i i' m between r named dated
        held first proper same second =
      let w' = (apply_inputs c host (file_store json now calls) paths agent now w (done i)).0 in
      let used = apply_inputs-IsUsed paths agent now calls w i m named dated held first in
      let a =
        apply_inputs-IsApplied c host (file_store json later calls') paths' agent' later
          (record { replays = run_all json between w'.replays; rest = r }) i' second in
      (reserve_consumed json between i.bundle.bootstrap_id later calls' w'.replays proper used).0 (
        ap (λ (k : String). (reserve json k later calls' (run_all json between w'.replays)).1)
          (sym same)
        ∙ succeeded_sound _ a.reserved)
