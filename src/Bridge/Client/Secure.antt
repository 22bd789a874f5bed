-- ===== src/Bridge/Client/Secure.antt =====
-- `writeSecureConfig` of internal/agentbridge/acl_other.go.
use forge_grid.Prelude.{
  String, ◌≡◌, ◌≢◌, ◌⊎◌, inl, inr, refl, ap, ◌∙◌, Bool, true, false, not, Option, some, Bool-cases,
  if◌then◌else◌,
}
use forge_grid.Disk.Atomic.{tmp_of, tmp_of_ne}

-- The calls of package os on whole paths, with what is documented of them. The Boolean says that
-- the call returned no error; `create_new` is OpenFile with O_EXCL, which gives an empty file.
pub record Files (D : Type 0) : Type 0 where
  pub read_file : String → D → Option String
  pub mkdir_of : String → D → D × Bool
  pub create_new : String → D → D × Bool
  pub write : String → String → D → D × Bool
  pub sync : String → D → D × Bool
  pub close : String → D → D × Bool
  pub rename : String → String → D → D × Bool
  pub remove : String → D → D
  pub mkdir_of_same : (p q : String) (d : D) → read_file q (mkdir_of p d).0 ≡ read_file q d
  pub create_new_other :
      (p q : String) (d : D) → p ≢ q → read_file q (create_new p d).0 ≡ read_file q d
  pub write_other :
      (p q text : String) (d : D) → p ≢ q → read_file q (write p text d).0 ≡ read_file q d
  pub write_done :
      (p text : String) (d : D)
      → read_file p d ≡ some ""
      → (write p text d).1 ≡ true
      → read_file p (write p text d).0 ≡ some text
  pub create_new_done :
      (p : String) (d : D) → (create_new p d).1 ≡ true → read_file p (create_new p d).0 ≡ some ""
  pub sync_same : (p q : String) (d : D) → read_file q (sync p d).0 ≡ read_file q d
  pub close_same : (p q : String) (d : D) → read_file q (close p d).0 ≡ read_file q d
  pub rename_done :
      (p q : String) (d : D)
      → (rename p q d).1 ≡ true
      → read_file q (rename p q d).0 ≡ read_file p d
  pub rename_failed : (p q : String) (d : D) → (rename p q d).1 ≡ false → (rename p q d).0 ≡ d
  pub remove_other : (p q : String) (d : D) → p ≢ q → read_file q (remove p d) ≡ read_file q d

module _ {D : Type 0} (os : Files D) where
  -- The part behind Close.
  unfoldable pub replace_file : String → D → D × Bool
  replace_file path d =
      let (d', moved) = os.rename (tmp_of path) path d in
      if moved then (d', true) else (os.remove (tmp_of path) d', false)

  abbrev pub give_up : String → D → D × Bool
  give_up path d = (os.remove (tmp_of path) (os.close (tmp_of path) d).0, false)

  -- The part behind OpenFile.
  unfoldable pub fill_file : String → String → D → D × Bool
  unfolding replace_file
  fill_file path text d =
      let (d1, written) = os.write (tmp_of path) text d in
      let (d2, synced) = os.sync (tmp_of path) d1 in
      let (d3, closed) = os.close (tmp_of path) d2 in
      if not written
      then give_up path d1
      else if not synced
      then give_up path d2
      else if not closed
      then (os.remove (tmp_of path) d3, false)
      else replace_file path d3

  -- The directory of the path is made first.
  unfoldable pub write_secure_config : String → String → D → D × Bool
  unfolding fill_file
  write_secure_config path text d =
      let (d1, made) = os.mkdir_of path d in
      let (d2, created) = os.create_new (tmp_of path) d1 in
      if not made then (d1, false) else if not created then (d2, false) else fill_file path text d2

module _ {D : Type 0} (os : Files D) where
  -- The file has the text if there was no error, and what it had if there was one.
  abbrev IsOneOf : String → String → D → D × Bool → Type 0
  IsOneOf path text d p =
      ((p.1 ≡ true) × (os.read_file path p.0 ≡ some text))
      ⊎ ((p.1 ≡ false) × (os.read_file path p.0 ≡ os.read_file path d))

  replace_file_cases :
      (path text : String) (d : D)
      → os.read_file (tmp_of path) d ≡ some text
      → IsOneOf path text d (replace_file os path d)
  unfolding replace_file
  replace_file_cases path text d h = elim (Bool-cases (os.rename (tmp_of path) path d).1) [
    | inl moved ↦ rw moved (inl (refl, os.rename_done (tmp_of path) path d moved ∙ h))
    | inr stuck ↦ rw stuck (
        inr (
          refl,
          os.remove_other (tmp_of path) path (os.rename (tmp_of path) path d).0 (tmp_of_ne path)
              ∙ ap (os.read_file path) (os.rename_failed (tmp_of path) path d stuck),
        ))
  ]

  IsOneOf-from :
      (path text : String) (d e : D) (p : D × Bool)
      → os.read_file path e ≡ os.read_file path d
      → IsOneOf path text e p
      → IsOneOf path text d p
  IsOneOf-from path text d e p same (inl q) = inl q
  IsOneOf-from path text d e p same (inr (failed, kept)) = inr (failed, kept ∙ same)

  pub give_up-kept :
      (path : String) (d : D)
      → os.read_file path (os.remove (tmp_of path) (os.close (tmp_of path) d).0)
        ≡ os.read_file path d
  give_up-kept path d =
      os.remove_other (tmp_of path) path (os.close (tmp_of path) d).0 (tmp_of_ne path)
      ∙ os.close_same (tmp_of path) path d

  fill_file_cases :
      (path text : String) (d : D)
      → os.read_file (tmp_of path) d ≡ some ""
      → IsOneOf path text d (fill_file os path text d)
  unfolding fill_file
  fill_file_cases path text d h =
      let tmp = tmp_of path in
      let d1 = (os.write tmp text d).0 in
      let d2 = (os.sync tmp d1).0 in
      let d3 = (os.close tmp d2).0 in
      let kept1 = os.write_other tmp path text d (tmp_of_ne path) in
      let kept2 = os.sync_same tmp path d1 ∙ kept1 in
      let kept3 = os.close_same tmp path d2 ∙ kept2 in
      elim (Bool-cases (os.write tmp text d).1) [
        | inr broken ↦ rw broken (inr (refl, give_up-kept path d1 ∙ kept1))
        | inl written ↦ rw written (elim (Bool-cases (os.sync tmp d1).1) [
          | inr unsynced ↦ rw unsynced (inr (refl, give_up-kept path d2 ∙ kept2))
          | inl synced ↦ rw synced (elim (Bool-cases (os.close tmp d2).1) [
            | inr left ↦ rw left (inr (refl, os.remove_other tmp path d3 (tmp_of_ne path) ∙ kept3))
            | inl closed ↦ rw closed (
                IsOneOf-from path text d d3 (replace_file os path d3) kept3 (
                  replace_file_cases path text d3 (
                    os.close_same tmp tmp d2
                    ∙ os.sync_same tmp tmp d1
                    ∙ os.write_done tmp text d h written)))
          ])
        ])
      ]

  -- Whatever call of writeSecureConfig fails, the file holds all of the new text if there was no
  -- error, and what it held before if there was one.
  pub write_secure_config_cases :
      (path text : String) (d : D)
      → (((write_secure_config os path text d).1 ≡ true)
          × (os.read_file path (write_secure_config os path text d).0 ≡ some text))
        ⊎ (((write_secure_config os path text d).1 ≡ false)
            × (os.read_file path (write_secure_config os path text d).0 ≡ os.read_file path d))
  unfolding write_secure_config
  write_secure_config_cases path text d =
      let tmp = tmp_of path in
      let d1 = (os.mkdir_of path d).0 in
      let d2 = (os.create_new tmp d1).0 in
      let kept1 = os.mkdir_of_same path path d in
      let kept2 = os.create_new_other tmp path d1 (tmp_of_ne path) ∙ kept1 in
      elim (Bool-cases (os.mkdir_of path d).1) [
        | inr unmade ↦ rw unmade (inr (refl, kept1))
        | inl made ↦ rw made (elim (Bool-cases (os.create_new tmp d1).1) [
          | inr there ↦ rw there (inr (refl, kept2))
          | inl created ↦ rw created (
              IsOneOf-from path text d d2 (fill_file os path text d2) kept2
                (fill_file_cases path text d2 (os.create_new_done tmp d1 created)))
        ])
      ]
