-- ===== src/Replay/Single.antt =====
-- Sequences of calls on the replay store, by any processes.
use forge_grid.Prelude.{
  sym, ap, ◌∙◌, ◌+◌, ◌<◌, ◌≡◌, ◌≢◌, refl, String, Option, none, some, List, [], ◌∷◌, ◌==◌, eq_iff,
  eq_refl, arith, Bool-cases, Option-cases, inl, inr, ◌⊎◌, All, subst,
}
use forge_grid.Dict.{Dict, lookup, insert, delete, lookup-insert, lookup-delete}
use forge_grid.Bridge.Models.{Time}
use forge_grid.Replay.{
  ReplayState, ReplayError, Result, ok, ReplayJson, Calls, File, reserve_change, commit_change,
  release_change, reserve, commit, release, status_reserved, status_consumed, reservation_time,
}
use forge_grid.Replay.File.{
  IsEntry, AllEntries, insert-AllEntries, delete-AllEntries, Holds, stored, IsUpdated, refused,
  written, update-IsUpdated, Holds-AllEntries,
}

-- A call of the store, with the time at which it runs and what its system calls answer.
pub data Operation : Type 0 where
  reserving : String → Time → Calls → Operation
  committing : String → Time → Calls → Operation
  releasing : String → Calls → Operation

-- Ids are not empty, and the clock is past Go's zero time.
abbrev pub IsProper : Operation → Type 0
IsProper (reserving id now calls) = (id ≢ "") × (now ≢ 0)
IsProper (committing id now calls) = now ≢ 0
IsProper (releasing id calls) = Unit

abbrev change_of : Operation → Dict ReplayState → Result (Dict ReplayState)
change_of (reserving id now calls) = reserve_change id now
change_of (committing id now calls) = commit_change id now
change_of (releasing id calls) = release_change id

abbrev pub calls_of : Operation → Calls
calls_of (reserving id now calls) = calls
calls_of (committing id now calls) = calls
calls_of (releasing id calls) = calls

module _ (json : ReplayJson) where
  unfoldable pub run : Operation → File → File × Option ReplayError
  unfolding reserve commit release
  run (reserving id now calls) = reserve json id now calls
  run (committing id now calls) = commit json id now calls
  run (releasing id calls) = release json id calls

  -- The file after a sequence of calls, of any number of processes: the lock makes each one a step.
  unfoldable pub run_all : List Operation → File → File
  unfolding run
  run_all [] file = file
  run_all (op ∷ ops) file = run_all ops (run op file).0

pub IsEntry-at :
    (id : String) (c : ReplayState) (m : Dict ReplayState)
    → AllEntries m
    → lookup id m ≡ some c
    → IsEntry id c
unfolding lookup
IsEntry-at id c [] h e = absurd (ground arith)
IsEntry-at id c ((j, d) ∷ more) h e = elim (Bool-cases (j == id)) [
  | inl same ↦
      subst (λ i. IsEntry i c) ((eq_iff j id).0 same) (subst (λ x. IsEntry j x) (ground arith) h.0)
  | inr other ↦ IsEntry-at id c more h.1 (ground arith)
]

pub reserve_result :
    (id : String) (now : Time) (m m' : Dict ReplayState)
    → reserve_change id now m ≡ ok m'
    → m' ≡ insert id (record { status = status_reserved; time = now }) m
unfolding reserve_change
reserve_result id now m m' e = ground (arith, e)

commit_result :
    (id : String) (now : Time) (m m' : Dict ReplayState)
    → commit_change id now m ≡ ok m'
    → (m' ≡ insert id (record { status = status_consumed; time = now }) m)
      × ((c : ReplayState) × (lookup id m ≡ some c) × (c.status ≡ status_reserved))
unfolding commit_change
commit_result id now m m' e = elim (Option-cases (lookup id m)) [
  | inl free ↦ absurd (ground arith)
  | inr (c, at_id) ↦ (ground arith, (c, at_id, ground (arith, eq_iff c.status status_reserved)))
]

release_result :
    (id : String) (m m' : Dict ReplayState)
    → release_change id m ≡ ok m'
    → (m' ≡ m) ⊎ (m' ≡ delete id m)
unfolding release_change
release_result id m m' e = ground (arith, e)

change-AllEntries :
    (op : Operation) (m m' : Dict ReplayState)
    → IsProper op
    → AllEntries m
    → change_of op m ≡ ok m'
    → AllEntries m'
change-AllEntries (reserving id now calls) m m' p h e =
    rw (reserve_result id now m m' e)
      (insert-AllEntries id _ m (record { named = p.0; known = inl refl; dated = p.1 }) h)
change-AllEntries (committing id now calls) m m' p h e =
    let (same, (c, at_id, _)) = commit_result id now m m' e in
    rw same (
      insert-AllEntries id _ m
        (record { named = (IsEntry-at id c m h at_id).named; known = inr refl; dated = p }) h)
change-AllEntries (releasing id calls) m m' p h e = elim (release_result id m m' e) [
  | inl same ↦ rw same h
  | inr gone ↦ rw gone (delete-AllEntries id m h)
]

-- A consumed id stays consumed under every change.
change_consumed :
    (op : Operation) (m m' : Dict ReplayState) (id : String) (c : ReplayState)
    → lookup id m ≡ some c
    → c.status ≡ status_consumed
    → change_of op m ≡ ok m'
    → lookup id m' ≡ some c
unfolding reserve_change commit_change release_change
change_consumed (reserving j now calls) m m' id c at_id consumed e = ground (
  arith,
  at_id,
  consumed,
  e,
  lookup-insert j id (record { status = status_reserved; time = now }) m,
  eq_iff j id,
  eq_iff c.status status_consumed,
)
change_consumed (committing j now calls) m m' id c at_id consumed e = ground (
  arith,
  at_id,
  consumed,
  e,
  lookup-insert j id (record { status = status_consumed; time = now }) m,
  eq_iff j id,
  eq_iff c.status status_reserved,
  eq_iff status_consumed status_reserved,
)
change_consumed (releasing j calls) m m' id c at_id consumed e = ground (
  arith,
  at_id,
  consumed,
  e,
  lookup-delete j id m,
  eq_iff j id,
  eq_iff c.status status_reserved,
  eq_iff status_consumed status_reserved,
)

reserve_change_consumed :
    (id : String) (now : Time) (m m' : Dict ReplayState) (c : ReplayState)
    → lookup id m ≡ some c
    → c.status ≡ status_consumed
    → ¬ (reserve_change id now m ≡ ok m')
unfolding reserve_change
reserve_change_consumed id now m m' c at_id consumed e =
    ground (arith, at_id, consumed, e, eq_iff c.status status_consumed)

-- The state of an id that was reserved at a time: as it was then, or consumed since.
abbrev IsTaken : Time → ReplayState → Type 0
IsTaken now c = (c ≡ record { status = status_reserved; time = now }) ⊎ (c.status ≡ status_consumed)

-- A call that neither releases the id, nor reserves it after its fifteen minutes.
abbrev pub IsWithin : String → Time → Operation → Type 0
IsWithin id now (reserving j later calls) = j ≡ id → later < now + reservation_time
IsWithin id now (committing j later calls) = Unit
IsWithin id now (releasing j calls) = j ≢ id

reserve_change-IsTaken :
    (id : String) (now later : Time) (m m' : Dict ReplayState) (c : ReplayState)
    → lookup id m ≡ some c
    → IsTaken now c
    → later < now + reservation_time
    → ¬ (reserve_change id later m ≡ ok m')
unfolding reserve_change
reserve_change-IsTaken id now later m m' c at_id (inl held) soon e =
    let at_now : lookup id m ≡ some (record { status = status_reserved; time = now }) =
      at_id ∙ ap some held in
    ground (arith, at_now, soon, e)
reserve_change-IsTaken id now later m m' c at_id (inr consumed) soon e =
    ground (arith, at_id, consumed, e, eq_iff c.status status_consumed)

-- Such a call keeps the id taken.
change-IsTaken :
    (op : Operation) (m m' : Dict ReplayState) (id : String) (now : Time) (c : ReplayState)
    → IsWithin id now op
    → lookup id m ≡ some c
    → IsTaken now c
    → change_of op m ≡ ok m'
    → (c' : ReplayState) × (lookup id m' ≡ some c') × IsTaken now c'
change-IsTaken (reserving j later calls) m m' id now c within at_id taken e =
    elim (Bool-cases (j == id)) [
      | inl same ↦
          let named = (eq_iff j id).0 same in
          absurd (
            reserve_change-IsTaken id now later m m' c at_id taken (within named)
              (ap (λ (k : String). reserve_change k later m) (sym named) ∙ e))
      | inr other ↦ (
        c,
        ap (lookup id) (reserve_result j later m m' e)
            ∙ lookup-insert j id (record { status = status_reserved; time = later }) m
            ∙ rw other at_id,
        taken,
      )
    ]
change-IsTaken (committing j later calls) m m' id now c within at_id taken e =
    let found =
      ap (lookup id) (commit_result j later m m' e).0
      ∙ lookup-insert j id (record { status = status_consumed; time = later }) m in
    elim (Bool-cases (j == id)) [
      | inl same ↦
          (record { status = status_consumed; time = later }, found ∙ rw same refl, inr refl)
      | inr other ↦ (c, found ∙ rw other at_id, taken)
    ]
change-IsTaken (releasing j calls) m m' id now c within at_id taken e =
    elim (release_result j m m' e) [
      | inl same ↦ (c, ap (lookup id) same ∙ at_id, taken)
      | inr gone ↦ (
        c,
        ap (lookup id) gone ∙ lookup-delete j id m ∙ ground (arith, at_id, within, eq_iff j id),
        taken,
      )
    ]

module _ (json : ReplayJson) where
  -- The file is sound, and the id is consumed in it.
  pub record IsUsed (id : String) (file : File) : Type 0 where
    pub map : Dict ReplayState
    pub state : ReplayState
    pub held : Holds json file map
    pub at_id : lookup id map ≡ some state
    pub consumed : state.status ≡ status_consumed

  run-IsUpdated :
      (op : Operation) (m : Dict ReplayState) (file : File)
      → Holds json file m
      → IsUpdated json (change_of op) m file (run json op file)
  unfolding run
  run-IsUpdated (reserving id now calls) m file h = update-IsUpdated json _ m calls file h
  run-IsUpdated (committing id now calls) m file h = update-IsUpdated json _ m calls file h
  run-IsUpdated (releasing id calls) m file h = update-IsUpdated json _ m calls file h

  Holds-of_written :
      (op : Operation) (m m' : Dict ReplayState) (text : String) (file : File)
      → IsProper op
      → Holds json file m
      → change_of op m ≡ ok m'
      → json.marshal_map m' ≡ some text
      → Holds json (some text) m'
  Holds-of_written op m m' text file p h e w =
      stored (json.round_trip m' text w) (json.not_null m' text w)
        (change-AllEntries op m m' p (Holds-AllEntries json h) e)

  run-IsUsed :
      (op : Operation) (id : String) (file : File)
      → IsProper op
      → IsUsed id file
      → IsUsed id (run json op file).0
  run-IsUsed op id file p u = elim (run-IsUpdated op u.map file u.held) [
    | refused same _ ↦ rw same u
    | written m' text e w same ↦ rw same (record {
      map = m';
      state = u.state;
      held = Holds-of_written op u.map m' text file p u.held e w;
      at_id = change_consumed op u.map m' id u.state u.at_id u.consumed e;
      consumed = u.consumed;
    })
  ]

  pub run_all-IsUsed :
      (ops : List Operation) (id : String) (file : File)
      → All IsProper ops
      → IsUsed id file
      → IsUsed id (run_all json ops file)
  unfolding run_all
  run_all-IsUsed [] id file p u = u
  run_all-IsUsed (op ∷ ops) id file p u =
      run_all-IsUsed ops id (run json op file).0 p.1 (run-IsUsed op id file p.0 u)

  -- Once an id is consumed it can never be reserved again, after whatever calls by whatever processes.
  pub reserve_consumed :
      (ops : List Operation) (id : String) (now : Time) (calls : Calls) (file : File)
      → All IsProper ops
      → IsUsed id file
      → let later = run_all json ops file in
        ((reserve json id now calls later).1 ≢ none) × ((reserve json id now calls later).0 ≡ later)
  unfolding run
  reserve_consumed ops id now calls file p u =
      let u' = run_all-IsUsed ops id file p u in
      elim (run-IsUpdated (reserving id now calls) u'.map (run_all json ops file) u'.held) [
        | refused same e ↦ (e, same)
        | written m' text e w same ↦
            absurd (reserve_change_consumed id now u'.map m' u'.state u'.at_id u'.consumed e)
      ]

  -- The file is sound, and the id is taken in it.
  record IsHeld (id : String) (now : Time) (file : File) : Type 0 where
    pub map : Dict ReplayState
    pub state : ReplayState
    pub held : Holds json file map
    pub at_id : lookup id map ≡ some state
    pub taken : IsTaken now state

  run-IsHeld :
      (op : Operation) (id : String) (now : Time) (file : File)
      → IsProper op
      → IsWithin id now op
      → IsHeld id now file
      → IsHeld id now (run json op file).0
  run-IsHeld op id now file p within u = elim (run-IsUpdated op u.map file u.held) [
    | refused same _ ↦ rw same u
    | written m' text e w same ↦
        let (state, at_id, taken) =
          change-IsTaken op u.map m' id now u.state within u.at_id u.taken e in
        rw same (record {
          map = m';
          state = state;
          held = Holds-of_written op u.map m' text file p u.held e w;
          at_id = at_id;
          taken = taken;
        })
  ]

  run_all-IsHeld :
      (ops : List Operation) (id : String) (now : Time) (file : File)
      → All IsProper ops
      → All (IsWithin id now) ops
      → IsHeld id now file
      → IsHeld id now (run_all json ops file)
  unfolding run_all
  run_all-IsHeld [] id now file p q u = u
  run_all-IsHeld (op ∷ ops) id now file p q u =
      run_all-IsHeld ops id now (run json op file).0 p.1 q.1 (run-IsHeld op id now file p.0 q.0 u)

  reserve-IsHeld :
      (id : String) (now : Time) (calls : Calls) (file : File) (m : Dict ReplayState)
      → id ≢ ""
      → now ≢ 0
      → Holds json file m
      → (reserve json id now calls file).1 ≡ none
      → IsHeld id now (reserve json id now calls file).0
  unfolding run
  reserve-IsHeld id now calls file m named dated h done =
      elim (run-IsUpdated (reserving id now calls) m file h) [
        | refused _ e ↦ absurd (e done)
        | written m' text e w same ↦ rw same (record {
          map = m';
          state = record { status = status_reserved; time = now };
          held = Holds-of_written (reserving id now calls) m m' text file (named, dated) h e w;
          at_id = rw (reserve_result id now m m' e) (rw lookup-insert (rw eq_refl));
          taken = inl refl;
        })
      ]

  -- Once an id was reserved without an error, no reservation of it succeeds within fifteen minutes of
  -- that time, after whatever calls by whatever processes in between, if none of them releases the id
  -- and those that reserve it come within the fifteen minutes too.
  pub reserve_exclusive :
      (id : String) (now later : Time) (calls calls' : Calls) (file : File) (m : Dict ReplayState)
      (between : List Operation)
      → id ≢ ""
      → now ≢ 0
      → Holds json file m
      → (reserve json id now calls file).1 ≡ none
      → All IsProper between
      → All (IsWithin id now) between
      → later < now + reservation_time
      → (reserve json id later calls' (run_all json between (reserve json id now calls file).0)).1
        ≢ none
  unfolding run
  reserve_exclusive id now later calls calls' file m between named dated h done proper within soon =
      let u =
        run_all-IsHeld between id now (reserve json id now calls file).0 proper within
          (reserve-IsHeld id now calls file m named dated h done) in
      elim (run-IsUpdated (reserving id later calls') u.map _ u.held) [
        | refused _ e ↦ e
        | written m' _ e _ _ ↦
            absurd (reserve_change-IsTaken id now later u.map m' u.state u.at_id u.taken soon e)
      ]

  -- A commit without an error is of a reserved id, and the id is consumed afterwards.
  pub commit_consumes :
      (id : String) (now : Time) (calls : Calls) (file : File) (m : Dict ReplayState)
      → now ≢ 0
      → Holds json file m
      → (commit json id now calls file).1 ≡ none
      → ((c : ReplayState) × (lookup id m ≡ some c) × (c.status ≡ status_reserved))
        × IsUsed id (commit json id now calls file).0
  unfolding run
  commit_consumes id now calls file m dated h done =
      elim (run-IsUpdated (committing id now calls) m file h) [
        | refused _ e ↦ absurd (e done)
        | written m' text e w same ↦
            let (result, reserved) = commit_result id now m m' e in
            (
              reserved,
              rw same (record {
                map = m';
                state = record { status = status_consumed; time = now };
                held = Holds-of_written (committing id now calls) m m' text file dated h e w;
                at_id = rw result (rw lookup-insert (rw eq_refl));
                consumed = refl;
              }),
            )
      ]

  -- Whatever an operation does, the file holds a sound map after it.
  pub run-Holds :
      (op : Operation) (file : File) (m : Dict ReplayState)
      → IsProper op
      → Holds json file m
      → (m' : Dict ReplayState) × Holds json (run json op file).0 m'
  run-Holds op file m p h = elim (run-IsUpdated op m file h) [
    | refused same _ ↦ (m, rw same h)
    | written m' text e w same ↦ (m', rw same (Holds-of_written op m m' text file p h e w))
  ]
