-- ===== src/Replay/Corrupt.antt =====
-- The empty id in the replay store.
use forge_grid.Prelude.{
  ◌≡◌, ◌≢◌, refl, Bool, true, false, none, some, Bool-cases, Option-cases, inl, inr,
}
use forge_grid.Dict.{Dict, lookup-insert}
use forge_grid.Bridge.Models.{Time}
use forge_grid.Replay.{
  ReplayState, ReplayError, Result, err, ReplayJson, Calls, File, check_entries, check_map, load,
  change_loaded, unlock, update, reserve_change, reserve, read_failed, status_reserved,
}
use forge_grid.Replay.File.{Holds, refused, written, update-IsUpdated, AllEntries-of_check_entries}
use forge_grid.Replay.Single.{
  Operation, reserving, committing, releasing, run, IsEntry-at, reserve_result,
}

unlock-ne-none : (b : Bool) (e : ReplayError) → unlock b (some e) ≢ none
unfolding unlock
unlock-ne-none true e = λ p. cc
unlock-ne-none false e = λ p. cc

module _ (json : ReplayJson) where
  -- A file that no call can load: every operation fails and leaves it.
  abbrev pub IsBroken : File → Type 0
  IsBroken file = (calls : Calls) → (e : ReplayError) × (load json calls file ≡ err e)

  unfolding_change :
      (change : Dict ReplayState → Result (Dict ReplayState)) (calls : Calls) (e : ReplayError)
      (file : File)
      → change_loaded json change calls (err e) file ≡ (file, some e)
  unfolding change_loaded
  unfolding_change change calls e file = refl

  update_broken :
      (change : Dict ReplayState → Result (Dict ReplayState)) (calls : Calls) (file : File)
      → IsBroken file
      → ((update json change calls file).1 ≢ none) × ((update json change calls file).0 ≡ file)
  unfolding update
  update_broken change calls file broken =
      let (e, fails) = broken calls in
      elim (Bool-cases calls.opened) [
        | inr bad ↦ simp bad (λ p. cc, refl)
        | inl opened ↦ elim (Bool-cases calls.locked) [
          | inr bad ↦ simp (opened, bad) (λ p. cc, refl)
          | inl locked ↦
              simp (opened, locked, fails, unfolding_change) (unlock-ne-none calls.unlocked e, refl)
        ]
      ]

  run_broken :
      (op : Operation) (file : File)
      → IsBroken file
      → ((run json op file).1 ≢ none) × ((run json op file).0 ≡ file)
  unfolding run
  run_broken (reserving id now calls) file b = update_broken _ calls file b
  run_broken (committing id now calls) file b = update_broken _ calls file b
  run_broken (releasing id calls) file b = update_broken _ calls file b

  -- Reserving the empty id without an error breaks the store for good: no later call succeeds, on
  -- any id, not even the release of the empty one, and the file never changes again.
  pub reserve_empty_breaks :
      (now : Time) (calls : Calls) (file : File) (m : Dict ReplayState)
      → Holds json file m
      → (reserve json "" now calls file).1 ≡ none
      → (op : Operation)
      → let broken = (reserve json "" now calls file).0 in
        ((run json op broken).1 ≢ none) × ((run json op broken).0 ≡ broken)
  unfolding reserve load check_map
  reserve_empty_breaks now calls file m h done op =
      elim (update-IsUpdated json (reserve_change "" now) m calls file h) [
        | refused _ e ↦ absurd (e done)
        | written m' text e w same ↦ rw same (
            run_broken op (some text) (λ calls'. elim (Bool-cases calls'.readable) [
              | inr bad ↦ (read_failed, rw bad)
              | inl fine ↦ elim (Option-cases (check_entries m')) [
                | inr (e', found) ↦
                    (e', rw fine (rw (json.round_trip m' text w) (rw (found, check_map))))
                | inl sound ↦ absurd (
                    (IsEntry-at "" (record { status = status_reserved; time = now }) m'
                        (AllEntries-of_check_entries m' sound)
                        (rw (reserve_result "" now m m' e) (rw lookup-insert))).named
                      refl)
              ]
            ]))
      ]
