-- ===== src/Replay/File.antt =====
-- A sound file of the replay store, and what an update makes of it.
use forge_grid.Prelude.{
  ◌≡◌, ◌≢◌, refl, String, Bool, true, false, Option, none, some, [], ◌∷◌, ◌==◌, eq_iff, arith,
  Bool-cases, Option-cases, inl, inr, ◌⊎◌,
}
use forge_grid.Dict.{Dict, insert, delete}
use forge_grid.Bridge.Models.{one}
use forge_grid.Replay.Blob.{write_secure_blob_cases}
use forge_grid.Replay.{
  ReplayState, ReplayError, Result, ok, err, ReplayJson, Calls, check_entries, check_map, File,
  load, is_nil, save_text, save_change, change_loaded, update, unlock, read_failed, status_reserved,
  status_consumed,
}

-- What `load` demands of every entry.
pub record IsEntry (id : String) (state : ReplayState) : Type 0 where
  pub named : id ≢ ""
  pub known : (state.status ≡ status_reserved) ⊎ (state.status ≡ status_consumed)
  pub dated : state.time ≢ 0

abbrev pub AllEntries : Dict ReplayState → Type 0
AllEntries [] = Unit
AllEntries ((id, state) ∷ more) = IsEntry id state × AllEntries more

pub check_entries_of_AllEntries : (m : Dict ReplayState) → AllEntries m → check_entries m ≡ none
unfolding check_entries
check_entries_of_AllEntries [] h = refl
check_entries_of_AllEntries ((id, state) ∷ more) (e, h) = ground (
  arith,
  e,
  check_entries_of_AllEntries more h,
  eq_iff id "",
  eq_iff state.status status_reserved,
  eq_iff state.status status_consumed,
)

pub AllEntries-of_check_entries : (m : Dict ReplayState) → check_entries m ≡ none → AllEntries m
unfolding check_entries
AllEntries-of_check_entries [] h = tt
AllEntries-of_check_entries ((id, state) ∷ more) h = (
  record {
    named = ground (arith, eq_iff id "", h);
    known =
        ground (arith, eq_iff state.status status_reserved, eq_iff state.status status_consumed, h);
    dated = ground (arith, h);
  },
  AllEntries-of_check_entries more (ground (arith, h)),
)

pub insert-AllEntries :
    (id : String) (state : ReplayState) (m : Dict ReplayState)
    → IsEntry id state
    → AllEntries m
    → AllEntries (insert id state m)
unfolding insert
insert-AllEntries id state [] e h = (e, tt)
insert-AllEntries id state ((j, old) ∷ more) e h = elim (Bool-cases (j == id)) [
  | inl same ↦ rw same (e, h.1)
  | inr other ↦ rw other (h.0, insert-AllEntries id state more e h.1)
]

pub delete-AllEntries :
    (id : String) (m : Dict ReplayState) → AllEntries m → AllEntries (delete id m)
unfolding delete
delete-AllEntries id [] h = tt
delete-AllEntries id ((j, old) ∷ more) h = elim (Bool-cases (j == id)) [
  | inl same ↦ rw same (delete-AllEntries id more h.1)
  | inr other ↦ rw other (h.0, delete-AllEntries id more h.1)
]

module _ (json : ReplayJson) where
  -- The file holds the map.
  pub data Holds : File → Dict ReplayState → Type 0 where
    missing : Holds none []
    stored :
        {text : String} {m : Dict ReplayState}
        → json.decode_map text ≡ one m
        → json.is_null text ≡ false
        → AllEntries m
        → Holds (some text) m

  Holds-is_nil : {file : File} {m : Dict ReplayState} → Holds file m → is_nil json file ≡ false
  unfolding is_nil
  Holds-is_nil missing = refl
  Holds-is_nil (stored decoded filled entries) = filled

  pub Holds-AllEntries : {file : File} {m : Dict ReplayState} → Holds file m → AllEntries m
  Holds-AllEntries missing = tt
  Holds-AllEntries (stored decoded filled entries) = entries

  pub load-Holds :
      (calls : Calls) (file : File) (m : Dict ReplayState)
      → Holds file m
      → calls.readable ≡ true
      → load json calls file ≡ ok m
  unfolding load
  load-Holds calls _ _ missing r = rw r
  load-Holds calls _ _ (stored decoded filled entries) r =
      rw r (rw (decoded, check_map) (rw (check_entries_of_AllEntries _ entries)))

  load_unreadable :
      (calls : Calls) (file : File)
      → calls.readable ≡ false
      → load json calls file ≡ err read_failed
  unfolding load
  load_unreadable calls none r = rw r
  load_unreadable calls (some text) r = rw r

  -- The result of an update on a file that holds `m`: an error and the old file, or the changed map
  -- written (an error may then still come from unlocking).
  pub data IsUpdated (change : Dict ReplayState → Result (Dict ReplayState)) (m : Dict ReplayState)
      (file : File) (r : File × Option ReplayError) : Type 0 where
    refused : r.0 ≡ file → r.1 ≢ none → IsUpdated change m file r
    written :
        (m' : Dict ReplayState) (text : String)
        → change m ≡ ok m'
        → json.marshal_map m' ≡ some text
        → r.0 ≡ some text
        → IsUpdated change m file r

  module _ (change : Dict ReplayState → Result (Dict ReplayState)) (m : Dict ReplayState)
      (calls : Calls) (file : File) where
    save_text-IsUpdated :
        (m' : Dict ReplayState)
        → change m ≡ ok m'
        → IsUpdated change m file (save_text json calls (json.marshal_map m') file)
    unfolding save_text
    save_text-IsUpdated m' e = elim (Option-cases (json.marshal_map m')) [
      | inl bad ↦ rw (bad, save_text) (refused refl (λ p. cc))
      | inr (text, got) ↦
          rw (got, save_text)
            (elim (write_secure_blob_cases calls.blob text file) [
              | inl done ↦ rw done (written m' text e got refl)
              | inr failed ↦ rw failed (refused refl (λ p. cc))
            ])
    ]

    change_loaded-IsUpdated :
        Holds file m → IsUpdated change m file (change_loaded json change calls (ok m) file)
    unfolding change_loaded
    change_loaded-IsUpdated h = rw (Holds-is_nil h) (by_change (change m) refl)
      where
        by_change :
            (r : Result (Dict ReplayState))
            → change m ≡ r
            → IsUpdated change m file (save_change json calls r file)
        by_change (err e) h = unfold save_change in (refused refl (λ p. cc))
        by_change (ok m') h = unfold save_change in (save_text-IsUpdated m' h)

    -- The error of the update is kept when unlocking fails too.
    unlock-IsUpdated :
        (b : Bool) (r : File × Option ReplayError)
        → IsUpdated change m file r
        → IsUpdated change m file (r.0, unlock b r.1)
    unfolding unlock
    unlock-IsUpdated b r (refused same e) = refused same (ground (arith, e))
    unlock-IsUpdated b r (written m' text p q same) = written m' text p q same

    pub update-IsUpdated : Holds file m → IsUpdated change m file (update json change calls file)
    unfolding update
    update-IsUpdated h = elim (Bool-cases calls.opened) [
      | inr bad ↦ simp bad (refused refl (λ p. cc))
      | inl opened ↦ elim (Bool-cases calls.locked) [
        | inr bad ↦ simp (opened, bad) (refused refl (λ p. cc))
        | inl locked ↦
            simp (opened, locked)
              ((unlock-IsUpdated calls.unlocked
                (change_loaded json change calls (load json calls file) file)
                (elim (Bool-cases calls.readable) [
                  | inl fine ↦ rw (load-Holds calls file m h fine) (change_loaded-IsUpdated h)
                  | inr bad ↦
                      rw (load_unreadable calls file bad)
                        (unfold change_loaded in (refused refl (λ p. cc)))
                ])))
      ]
    ]
