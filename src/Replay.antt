-- ===== src/Replay.antt =====
-- The replay store of .agents/scripts/bootstrap-crypto/main.go: which bootstrap ids are reserved or
-- consumed, in one JSON file under a lock file.
pub mod Blob
pub mod File
pub mod Single
pub mod Corrupt
use forge_grid.Prelude.{
  ℕ, ◌+◌, ◌*◌, ◌^◌, ◌≡◌, String, Bool, true, false, Option, none, some, List, [], ◌∷◌, ◌==◌, ◌||◌,
  ◌&&◌, not, ltb, nat_eq, if◌then◌else◌,
}
use forge_grid.Dict.{Dict, lookup, insert, delete}
use forge_grid.Bridge.Models.{Time, Decoded, malformed, one, trailing}
use forge_grid.Replay.Blob.{BlobCalls, write_secure_blob}

abbrev pub status_reserved : String
status_reserved = "reserved"

abbrev pub status_consumed : String
status_consumed = "consumed"

-- The status is a string that JSON may fill with any text.
pub record ReplayState : Type 0 where
  pub status : String
  pub time : Time

pub data ReplayError : Type 0 where
  open_failed lock_failed read_failed : ReplayError
  corrupt_json trailing_data empty_id invalid_status zero_timestamp : ReplayError
  already_consumed currently_reserved not_reserved : ReplayError
  -- The panic of a write to a nil map.
  nil_map : ReplayError
  marshal_failed write_failed : ReplayError
  unlock_failed : ReplayError
  also_unlock_failed : ReplayError → ReplayError

pub data Result (A : Type 0) : Type 0 where
  ok : A → Result A
  err : ReplayError → Result A

-- encoding/json on the map: the decoder refuses unknown fields. The text `null` is decoded to a nil
-- map, which has no entries.
pub record ReplayJson : Type 0 where
  pub is_null : String → Bool
  pub marshal_map : Dict ReplayState → Option String
  pub decode_map : String → Decoded (Dict ReplayState)
  pub round_trip :
      (m : Dict ReplayState) (text : String) → marshal_map m ≡ some text → decode_map text ≡ one m
  pub not_null :
      (m : Dict ReplayState) (text : String) → marshal_map m ≡ some text → is_null text ≡ false

-- What the calls of one update answer: opening and locking the lock file, reading the store (a
-- file that does not exist is no error), the calls of the write, and unlocking.
pub record Calls : Type 0 where
  pub opened : Bool
  pub locked : Bool
  pub readable : Bool
  pub blob : BlobCalls
  pub unlocked : Bool

-- 15 * time.Minute
abbrev pub reservation_time : Time
reservation_time = 15 * 60 * 10 ^ 9

-- The loop of `load` over the entries.
unfoldable pub check_entries : Dict ReplayState → Option ReplayError
check_entries [] = none
check_entries ((id, state) ∷ more) =
    let rest = check_entries more in
    if id == ""
    then some empty_id
    else if not (state.status == status_reserved) && not (state.status == status_consumed)
    then some invalid_status
    else if nat_eq state.time 0
    then some zero_timestamp
    else rest

unfoldable pub check_map : Decoded (Dict ReplayState) → Result (Dict ReplayState)
check_map (malformed _) = err corrupt_json
check_map (trailing _) = err trailing_data
check_map (one m) = elim (check_entries m) [ none ↦ ok m | some e ↦ err e ]

-- The change that Reserve, Commit and Release make under the lock.
unfoldable pub reserve_change : String → Time → Dict ReplayState → Result (Dict ReplayState)
reserve_change id now m =
    let reserved = insert id (record { status = status_reserved; time = now }) m in
    elim (lookup id m) [
      | none ↦ ok reserved
      | some state ↦
          if state.status == status_consumed
          then err already_consumed
          else if state.status == status_reserved && ltb now (state.time + reservation_time)
          then err currently_reserved
          else ok reserved
    ]

unfoldable pub commit_change : String → Time → Dict ReplayState → Result (Dict ReplayState)
commit_change id now m = elim (lookup id m) [
  | none ↦ err not_reserved
  | some state ↦
      if not (state.status == status_reserved)
      then err not_reserved
      else ok (insert id (record { status = status_consumed; time = now }) m)
]

unfoldable pub release_change : String → Dict ReplayState → Result (Dict ReplayState)
release_change id m = elim (lookup id m) [
  | none ↦ ok m
  | some state ↦ if state.status == status_reserved then ok (delete id m) else ok m
]

-- The content of the store's file; `none` if it does not exist.
abbrev pub File : Type 0
File = Option String

-- The deferred function of `update`.
unfoldable pub unlock : Bool → Option ReplayError → Option ReplayError
unlock true e = e
unlock false none = some unlock_failed
unlock false (some e) = some (also_unlock_failed e)

module _ (json : ReplayJson) where
  unfoldable pub load : Calls → File → Result (Dict ReplayState)
  unfolding check_map
  load calls none = if calls.readable then ok [] else err read_failed
  load calls (some text) =
      if calls.readable then check_map (json.decode_map text) else err read_failed

  unfoldable pub save_text : Calls → Option String → File → File × Option ReplayError
  save_text calls none file = (file, some marshal_failed)
  save_text calls (some text) file =
      let (file', written) = write_secure_blob calls.blob text file in
      (file', if written then none else some write_failed)

  unfoldable pub save_change : Calls → Result (Dict ReplayState) → File → File × Option ReplayError
  save_change calls (err e) file = (file, some e)
  save_change calls (ok m) file = save_text calls (json.marshal_map m) file

  -- The same where the loaded map is nil.
  unfoldable pub save_nil : Calls → Result (Dict ReplayState) → File → File × Option ReplayError
  save_nil calls (err e) file = (file, some e)
  save_nil calls (ok []) file = save_text calls (some "null") file
  save_nil calls (ok (_ ∷ _)) file = (file, some nil_map)

  unfoldable pub is_nil : File → Bool
  is_nil none = false
  is_nil (some text) = json.is_null text

  unfoldable pub change_loaded :
      (Dict ReplayState → Result (Dict ReplayState))
      → Calls
      → Result (Dict ReplayState)
      → File
      → File × Option ReplayError
  unfolding is_nil save_nil
  change_loaded change calls (err e) file = (file, some e)
  change_loaded change calls (ok m) file =
      if is_nil file then save_nil calls (change m) file else save_change calls (change m) file

  -- `update` of WindowsReplayStore.
  unfoldable pub update :
      (Dict ReplayState → Result (Dict ReplayState)) → Calls → File → File × Option ReplayError
  unfolding unlock
  update change calls file =
      let (file', e) = change_loaded change calls (load calls file) file in
      if not calls.opened
      then (file, some open_failed)
      else if not calls.locked
      then (file, some lock_failed)
      else (file', unlock calls.unlocked e)

  unfoldable pub reserve : String → Time → Calls → File → File × Option ReplayError
  reserve id now = update (reserve_change id now)

  unfoldable pub commit : String → Time → Calls → File → File × Option ReplayError
  commit id now = update (commit_change id now)

  unfoldable pub release : String → Calls → File → File × Option ReplayError
  release id = update (release_change id)
