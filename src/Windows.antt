-- ===== src/Windows.antt =====
-- internal/agentbridge/acl_windows.go: the access lists that protect the client's configuration.
pub mod Verified
pub mod Config
use Prim.Native.String.{◌++◌ as ◌<>◌}
use forge_grid.Prelude.{
  ℕ, ◌/◌, ◌%◌, String, Bool, true, false, not, ◌&&◌, ◌||◌, ◌==◌, Option, none, some, List, [], ◌∷◌,
  nat_eq, leb, length, get_elem?, get_or, split, contains, before_text, trim_right_char,
  if◌then◌else◌,
}

pub data AclError : Type 0 where
  no_token no_user no_sid : AclError
  no_descriptor no_control no_dacl dacl_unread null_dacl defaulted_dacl : AclError
  bad_sddl unset unread_acl : AclError
  unprotected bad_sid : AclError
  unauthorized : String → AclError

-- OpenCurrentProcessToken, GetTokenUser with the text of its SID, `none` for a nil one.
pub record Token : Type 0 where
  pub opened : Bool
  pub user : Option (Option String)

-- An access list of package windows stands for itself.
pub record Descriptor (Acl : Type 0) : Type 0 where
  pub control : Option ℕ
  -- The list, `none` for a null one, and whether it is a default.
  pub dacl : Option (Option Acl × Bool)

pub record Security (Acl D : Type 0) : Type 0 where
  pub token : Token
  pub parse_sddl : String → Option (Option (Descriptor Acl))
  pub set_dacl : String → Acl → D → D × Bool
  -- The text of the path's descriptor: `none` is an error, `some none` a nil descriptor.
  pub get_sddl : String → D → Option (Option String)
  pub is_sid : String → Bool
  -- Whether the account is the owner that the text "O:<account>" is parsed to, and that is the SID.
  pub same_account : String → String → Bool

pub data Answer (A : Type 0) : Type 0 where
  given : A → Answer A
  refused : AclError → Answer A

unfoldable pub sid_of : Option String → Answer String
sid_of none = refused no_user
sid_of (some sid) = if sid == "" then refused no_sid else given sid

unfoldable pub current_user_sid : Token → Answer String
unfolding sid_of
current_user_sid t =
    if not t.opened
    then refused no_token
    else elim t.user [ none ↦ refused no_user | some sid ↦ sid_of sid ]

-- SE_DACL_PRESENT is bit 2.
unfoldable pub has_dacl : ℕ → Bool
has_dacl control = nat_eq (control / 4 % 2) 1

unfoldable pub extract_explicit_dacl : {Acl : Type 0} → Option (Descriptor Acl) → Answer Acl
unfolding has_dacl
extract_explicit_dacl none = refused no_descriptor
extract_explicit_dacl (some sd) = elim sd.control [
  | none ↦ refused no_control
  | some control ↦ if not (has_dacl control) then refused no_dacl else elim sd.dacl [
    | none ↦ refused dacl_unread
    | some (list, defaulted) ↦ elim list [
      | none ↦ refused null_dacl
      | some acl ↦ if defaulted then refused defaulted_dacl else given acl
    ]
  ]
]

abbrev make_ace : Bool → String → String
make_ace is_dir account =
    "(A;" <> ((if is_dir then "OICI" else "") <> (";FA;;;" <> (account <> ")")))

-- The text of the list that is set: full access for the user, the system and the administrators.
unfoldable pub secure_sddl : Bool → String → String
secure_sddl is_dir sid =
    "D:PAI" <> (make_ace is_dir sid <> (make_ace is_dir "SY" <> make_ace is_dir "BA"))

-- The text before the first of the three marks, as they are cut off one after the other.
unfoldable pub dacl_part : String → String
unfolding before_text
dacl_part sddl = before_text "O:" (before_text "G:" (before_text "S:" sddl))

-- The fields of an entry.
abbrev pub fields_of : String → List String
fields_of part = split b';' (trim_right_char b')' part)

abbrev pub field : ℕ → String → String
field n part = get_or (get_elem? (fields_of part) n) ""

module _ {Acl D : Type 0} (sec : Security Acl D) where
  unfoldable pub allowed : String → String → Bool
  allowed sid account =
      (account == sid || (account == "SY" || account == "BA")) || sec.same_account account sid

  -- Whether an entry lets anyone else in.
  unfoldable pub is_foreign : String → String → Bool
  unfolding allowed
  is_foreign sid part =
      leb 6 (length (fields_of part)) && (field 0 part == "A" && not (allowed sid (field 5 part)))

  -- The loop over the entries.
  unfoldable pub check_entries : String → List String → Option AclError
  unfolding is_foreign
  check_entries sid [] = none
  check_entries sid (part ∷ parts) =
      let rest = check_entries sid parts in
      if is_foreign sid part then some (unauthorized (field 5 part)) else rest

  abbrev pub behind_first : List String → List String
  behind_first [] = []
  behind_first (_ ∷ parts) = parts

  -- The entries of the access list in a descriptor's text.
  unfoldable pub entries_of : String → List String
  unfolding dacl_part split
  entries_of sddl = behind_first (split b'(' (dacl_part sddl))

  unfoldable pub verify_sddl : String → String → Option AclError
  unfolding contains check_entries entries_of
  verify_sddl sddl sid =
      if not (contains sddl "D:P")
      then some unprotected
      else if not (sec.is_sid sid)
      then some bad_sid
      else check_entries sid (entries_of sddl)

  unfoldable pub verify_secure_acl : String → String → D → Option AclError
  unfolding verify_sddl
  verify_secure_acl path sid d = elim (sec.get_sddl path d) [
    | none ↦ some unread_acl
    | some text ↦ elim text [ none ↦ some no_descriptor | some sddl ↦ verify_sddl sddl sid ]
  ]

  -- From the parsed text on.
  unfoldable pub set_secure_acl : String → String → Answer Acl → D → D × Option AclError
  unfolding verify_secure_acl
  set_secure_acl path sid (refused e) d = (d, some e)
  set_secure_acl path sid (given acl) d =
      let (d', set) = sec.set_dacl path acl d in
      (d', if not set then some unset else verify_secure_acl path sid d')

  unfoldable pub apply_as : String → Bool → Answer String → D → D × Option AclError
  unfolding set_secure_acl secure_sddl extract_explicit_dacl
  apply_as path is_dir (refused e) d = (d, some e)
  apply_as path is_dir (given sid) d = elim (sec.parse_sddl (secure_sddl is_dir sid)) [
    | none ↦ (d, some bad_sddl)
    | some sd ↦ set_secure_acl path sid (extract_explicit_dacl sd) d
  ]

  unfoldable pub apply_secure_acl : String → Bool → D → D × Option AclError
  unfolding apply_as current_user_sid
  apply_secure_acl path is_dir d = apply_as path is_dir (current_user_sid sec.token) d

  unfoldable pub verify_as : String → Answer String → D → Option AclError
  unfolding verify_secure_acl
  verify_as path (refused e) d = some e
  verify_as path (given sid) d = verify_secure_acl path sid d
