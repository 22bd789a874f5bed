-- ===== src/Windows/Config.antt =====
-- `writeSecureConfig` of internal/agentbridge/acl_windows.go.
use forge_grid.Prelude.{String, ◌≡◌, Bool, true, false, not, none, some, if◌then◌else◌}
use forge_grid.Disk.Atomic.{tmp_of}
use forge_grid.Bridge.Client.Secure.{Files, give_up}
use forge_grid.Windows.{AclError, Security, given, current_user_sid, apply_secure_acl, verify_as}
use forge_grid.Windows.Verified.{IsPrivate}

module _ {Acl D : Type 0} (os : Files D) (sec : Security Acl D) (is_utf16 : String → Bool) where
  -- replaceFileAtomically: MoveFileEx is the rename.
  unfoldable pub replace_file_atomically : String → String → D → D × Bool
  replace_file_atomically from to d =
      if not (is_utf16 from)
      then (d, false)
      else if not (is_utf16 to)
      then (d, false)
      else os.rename from to d

  unfoldable pub verify_final : String → D → D × Bool
  verify_final path d = elim (verify_as sec path (current_user_sid sec.token) d) [
    | none ↦ (d, true)
    | some _ ↦ (os.remove path d, false)
  ]

  unfoldable pub replace_verified : String → D → D × Bool
  unfolding replace_file_atomically verify_final
  replace_verified path d =
      let (d', moved) = replace_file_atomically (tmp_of path) path d in
      if moved then verify_final path d' else (os.remove (tmp_of path) d', false)

  unfoldable pub fill_verified : String → String → D → D × Bool
  unfolding replace_verified
  fill_verified path text d =
      let (d1, written) = os.write (tmp_of path) text d in
      let (d2, synced) = os.sync (tmp_of path) d1 in
      let (d3, closed) = os.close (tmp_of path) d2 in
      if not written
      then give_up os path d1
      else if not synced
      then give_up os path d2
      else if not closed
      then (os.remove (tmp_of path) d3, false)
      else replace_verified path d3

  -- From OpenFile on.
  unfoldable pub create_verified : String → String → D → D × Bool
  unfolding fill_verified
  create_verified path text d =
      let (d1, created) = os.create_new (tmp_of path) d in
      let (d2, unsecured) = apply_secure_acl sec (tmp_of path) false d1 in
      if not created
      then (d1, false)
      else elim unsecured [ none ↦ fill_verified path text d2 | some _ ↦ give_up os path d2 ]

  unfoldable pub write_secure_config : (String → String) → String → String → D → D × Bool
  unfolding create_verified
  write_secure_config dir_of path text d =
      let (d1, made) = os.mkdir_of path d in
      let (d2, unsecured) = apply_secure_acl sec (dir_of path) true d1 in
      if not made
      then (d1, false)
      else elim unsecured [ none ↦ create_verified path text d2 | some _ ↦ (d2, false) ]

-- Setting an access list changes the content of no file.
abbrev pub IsAclOnly : {Acl D : Type 0} → Files D → Security Acl D → Type 0
IsAclOnly {Acl = Acl} {D = D} os sec =
    (path q : String) (acl : Acl) (d : D)
    → os.read_file q (sec.set_dacl path acl d).0 ≡ os.read_file q d

module _ {Acl D : Type 0} (os : Files D) (sec : Security Acl D) (is_utf16 : String → Bool)
    (acl_only : IsAclOnly os sec) where
  -- The file is private to the user of the process.
  pub record IsGuarded (path : String) (d : D) : Type 0 where
    pub sid : String
    pub sddl : String
    pub user : current_user_sid sec.token ≡ given sid
    pub read : sec.get_sddl path d ≡ some (some sddl)
    pub private : IsPrivate sec sid sddl

  -- What a write makes of the file: the new text, guarded; the old content; or Remove was
  -- called on the new text, whose access list could not be verified.
  pub data IsOutcome (path text : String) (d : D) : D × Bool → Type 0 where
    stored :
        (e : D)
        → os.read_file path e ≡ some text
        → IsGuarded path e
        → IsOutcome path text d (e, true)
    kept : (e : D) → os.read_file path e ≡ os.read_file path d → IsOutcome path text d (e, false)
    removed :
        (e : D) (reason : AclError)
        → os.read_file path e ≡ some text
        → verify_as sec path (current_user_sid sec.token) e ≡ some reason
        → IsOutcome path text d (os.remove path e, false)
