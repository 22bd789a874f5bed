-- ===== src/Examples/Replays.antt =====
-- The replay store with a codec for the maps of one entry "b1" at time 1, and calls that succeed.
use forge_grid.Prelude.{
  ◌≡◌, ◌≢◌, refl, String, true, false, Option, none, some, List, [], ◌∷◌, arith, eq_iff, ◌==◌,
  nat_eq, if◌then◌else◌,
}
use forge_grid.Dict.{Dict, lookup, insert}
use forge_grid.Bridge.Models.{Decoded, one, malformed}
use forge_grid.Replay.{
  is_nil, ReplayState, ReplayJson, Calls, check_entries, load, reserve_change, save_change,
  save_text, change_loaded, update, unlock, reserve, status_reserved, status_consumed,
}
use forge_grid.Replay.Blob.{all_done, write_secure_blob}
use forge_grid.Replay.File.{missing, stored, AllEntries-of_check_entries}
use forge_grid.Replay.Single.{
  Operation, releasing, committing, run, run_all, IsUsed, reserve_consumed, reserve_exclusive,
}
use forge_grid.Replay.Corrupt.{reserve_empty_breaks}

abbrev entry : String → String → Dict ReplayState
entry id status = (id, record { status = status; time = 1 }) ∷ []

-- The text of a map of one entry is its id behind a mark for its status.
abbrev pub marshal : Dict ReplayState → Option String
marshal [] = none
marshal ((id, state) ∷ []) =
    if nat_eq state.time 1
    then if id == "b1"
      then if state.status == status_reserved
        then some "r"
        else if state.status == status_consumed
        then some "c"
        else none
      else if id == ""
      then if state.status == status_reserved then some "e" else none
      else none
    else none
marshal (_ ∷ (_ ∷ _)) = none

abbrev pub decode : String → Decoded (Dict ReplayState)
decode text =
    if text == "r"
    then one (entry "b1" status_reserved)
    else if text == "c"
    then one (entry "b1" status_consumed)
    else if text == "e"
    then one (entry "" status_reserved)
    else malformed "unexpected"

pub decode-marshal :
    (m : Dict ReplayState) (text : String) → marshal m ≡ some text → decode text ≡ one m
decode-marshal [] text h = absurd (ground (arith, h))
decode-marshal ((id, state) ∷ []) text h = ground (
  arith,
  h,
  eq_iff id "b1",
  eq_iff id "",
  eq_iff state.status status_reserved,
  eq_iff state.status status_consumed,
  eq_iff text "r",
  eq_iff text "c",
  eq_iff text "e",
  eq_iff "r" "c",
  eq_iff "r" "e",
  eq_iff "c" "e",
)
decode-marshal (_ ∷ (_ ∷ _)) text h = absurd (ground (arith, h))

pub marshal-not_null :
    (m : Dict ReplayState) (text : String) → marshal m ≡ some text → (text == "null") ≡ false
marshal-not_null [] text h = absurd (ground (arith, h))
marshal-not_null ((id, state) ∷ []) text h =
    ground (arith, h, eq_iff text "null", eq_iff "r" "null", eq_iff "c" "null", eq_iff "e" "null")
marshal-not_null (_ ∷ (_ ∷ _)) text h = absurd (ground (arith, h))

abbrev pub json : ReplayJson
json = record {
  is_null = λ text. text == "null";
  marshal_map = marshal;
  decode_map = decode;
  round_trip = decode-marshal;
  not_null = marshal-not_null;
}

abbrev pub fine : Calls
fine = record { opened = true; locked = true; readable = true; blob = all_done; unlocked = true }

b1-IsUsed : IsUsed json "b1" (some "c")
unfolding lookup check_entries
b1-IsUsed = record {
  map = entry "b1" status_consumed;
  state = record { status = status_consumed; time = 1 };
  held = stored refl refl (AllEntries-of_check_entries (entry "b1" status_consumed) refl);
  at_id = refl;
  consumed = refl;
}

abbrev pub releases : List Operation
releases = releasing "b1" fine ∷ []

reserve_consumed_example :
    let later = run_all json releases (some "c") in
    ((reserve json "b1" 9 fine later).1 ≢ none) × ((reserve json "b1" 9 fine later).0 ≡ later)
reserve_consumed_example = reserve_consumed json releases "b1" 9 fine (some "c") (tt, tt) b1-IsUsed

abbrev between : List Operation
between = committing "b1" 1 fine ∷ releasing "b2" fine ∷ []

reserve_exclusive_example :
    (reserve json "b1" 2 fine (run_all json between (reserve json "b1" 1 fine none).0)).1 ≢ none
unfolding reserve update change_loaded load save_change save_text reserve_change unlock
    write_secure_blob lookup insert is_nil
reserve_exclusive_example =
    reserve_exclusive json "b1" 1 2 fine fine none [] between
      (λ e. ground (arith, e, eq_iff "b1" "")) (omega arith) missing refl (omega arith, (tt, tt))
      (tt, (λ e. ground (arith, e, eq_iff "b2" "b1"), tt)) (omega arith)

reserve_empty_breaks_example :
    let broken = (reserve json "" 1 fine none).0 in
    ((run json (releasing "" fine) broken).1 ≢ none)
    × ((run json (releasing "" fine) broken).0 ≡ broken)
unfolding reserve update change_loaded load save_change save_text reserve_change unlock
    write_secure_blob lookup insert is_nil
reserve_empty_breaks_example =
    reserve_empty_breaks json 1 fine none [] missing refl (releasing "" fine)
