-- ===== src/Execution.antt =====
-- internal/execution: the profiles, the check of the workspace path and a run of a process.
pub mod Logs
pub mod Workspace
use Prim.Native.String.{◌++◌}
use forge_grid.Prelude.{
  ℕ, ℤ, negsuc, String, Bool, true, false, not, ◌&&◌, Option, none, some, List, [], ◌∷◌, ◌==◌, ltb,
  nat_eq, length, map, cut_prefix, if◌then◌else◌, push,
}
use forge_grid.Dict.{Dict, lookup}

pub record Profile : Type 0 where
  pub name : String
  pub executable : String

abbrev pub profiles : Dict Profile
profiles =
    ("go", record { name = "go"; executable = "go" })
    ∷ ("node", record { name = "node"; executable = "node" })
    ∷ ("python", record { name = "python"; executable = "python" })
    ∷ ("test", record { name = "test"; executable = "echo" })
    ∷ []

pub data ProfileError : Type 0 where
  unknown_profile : String → ProfileError
  -- The profile, and the text of LookPath's error.
  not_in_path : String → String → ProfileError

-- What LookPath made of a name: the path, or the text of its error.
pub data Found : Type 0 where
  found : String → Found
  missing : String → Found

pub data ProfileResult : Type 0 where
  profile : Profile → ProfileResult
  no_profile : ProfileError → ProfileResult

unfoldable pub get_profile : (String → Found) → String → ProfileResult
unfolding lookup
get_profile look_path name = elim (lookup name profiles) [
  | none ↦ no_profile (unknown_profile name)
  | some p ↦ elim (look_path p.executable) [
    | missing text ↦ no_profile (not_in_path name text)
    | found path ↦ profile (record p { executable = path })
  ]
]

-- What profile.go calls of path/filepath and strings.ToLower; `none` is an error.
pub record Paths : Type 0 where
  pub abs : String → Option String
  pub eval_symlinks : String → Option String
  pub join : String → String → String
  pub clean : String → String
  pub to_lower : String → String
  pub separator : String

pub data PathResult : Type 0 where
  path : String → PathResult
  no_abs : PathResult
  escapes : String → PathResult

abbrev pub resolved : Paths → String → String
resolved fp p = elim (fp.eval_symlinks p) [ none ↦ p | some q ↦ q ]

abbrev has_prefix : String → String → Bool
has_prefix s prefix = elim (cut_prefix prefix s) [ none ↦ false | some _ ↦ true ]

-- The check at the end of SecureWorkspacePath, on the root and the target after EvalSymlinks.
unfoldable pub is_inside : Paths → String → String → Bool
is_inside fp root target =
    let root_prefix = fp.clean root ++ fp.separator in
    let joined_clean = fp.clean target in
    not (
      not (joined_clean == fp.clean root)
      && not (has_prefix (fp.to_lower joined_clean) (fp.to_lower root_prefix)))

unfoldable pub secure_workspace_path : Paths → String → String → PathResult
unfolding is_inside
secure_workspace_path fp workspace_root target_path = elim (fp.abs workspace_root) [
  | none ↦ no_abs
  | some abs_root ↦
      let eval_root = resolved fp abs_root in
      elim (fp.abs (fp.join eval_root target_path)) [
        | none ↦ no_abs
        | some abs_joined ↦
            if is_inside fp eval_root (resolved fp abs_joined)
            then path (resolved fp abs_joined)
            else escapes target_path
      ]
]

abbrev pub truncated : String
truncated = "... [logs truncated]"

-- NewExecutor
abbrev pub log_limit : ℕ
log_limit = 2000

unfoldable pub add_log : ℕ → String → List String → List String
add_log limit line logs =
    if ltb (length logs) limit
    then push logs line
    else if nat_eq (length logs) limit
    then push logs truncated
    else logs

-- The lines that the two scanners handed to addLog, in the order in which they took the mutex.
unfoldable pub add_logs : ℕ → List String → List String → List String
unfolding add_log
add_logs limit [] logs = logs
add_logs limit (line ∷ lines) logs = add_logs limit lines (add_log limit line logs)

-- The error is its text.
pub record ExecutionResult : Type 0 where
  pub exit_code : ℤ
  pub error : Option String
  pub logs : List String

-- What a process does: Start's error, if any, the lines that were scanned when Run returns, the exit
-- code and Wait's error.
pub record Process : Type 0 where
  pub start_error : Option String
  pub lines : List String
  pub exit_code : ℤ
  pub wait_error : Option String

abbrev pub environment : Dict String → List String
environment env = map (λ (e : String × String). e.0 ++ ("=" ++ e.1)) env

-- Run: `launch` is what the system does with the executable, the arguments, the environment and the
-- directory.
unfoldable pub run :
    (String → List String → List String → String → Process)
    → Profile
    → List String
    → Dict String
    → String
    → ExecutionResult
unfolding add_logs
run launch p args env work_dir =
    let process = launch p.executable args (environment env) work_dir in
    let logs = add_logs log_limit process.lines [] in
    elim process.start_error [
      | some text ↦ record { exit_code = negsuc 0; error = some text; logs = logs }
      | none ↦ record { exit_code = process.exit_code; error = process.wait_error; logs = logs }
    ]
