-- ===== src/Windows/Verified.antt =====
-- The access lists that `verifySecureACL` accepts.
use mathlib.Core.List.{Memᴰ}
use forge_grid.Prelude.{
  ◌≤◌, String, ◌≡◌, ◌⊎◌, ap, ◌∙◌, true, false, ◌==◌, none, some, List, [], ◌∷◌, arith, eq_iff,
  length, contains, Bool-cases, Option-cases, inl, inr,
}
use forge_grid.Windows.{
  Security, fields_of, field, allowed, is_foreign, check_entries, entries_of, verify_sddl,
  verify_secure_acl,
}

module _ {Acl D : Type 0} (sec : Security Acl D) where
  -- The user, the system, the administrators, or another name of the user's account.
  pub IsAllowed : String → String → Type 0
  IsAllowed sid account =
      (account ≡ sid) ⊎ (account ≡ "SY") ⊎ (account ≡ "BA") ⊎ (sec.same_account account sid ≡ true)

  -- An entry that lets an account in.
  pub record IsGrant (part : String) : Type 0 where
    pub whole : 6 ≤ length (fields_of part)
    pub allows : field 0 part ≡ "A"

  IsAllowed-of_allowed :
      (sid account : String) → allowed sec sid account ≡ true → IsAllowed sid account
  unfolding allowed IsAllowed
  IsAllowed-of_allowed sid account h = elim (Bool-cases (account == sid)) [
    | inl user ↦ inl ((eq_iff account sid).0 user)
    | inr n ↦ elim (Bool-cases (account == "SY")) [
      | inl system ↦ inr (inl ((eq_iff account "SY").0 system))
      | inr n' ↦ elim (Bool-cases (account == "BA")) [
        | inl admins ↦ inr (inr (inl ((eq_iff account "BA").0 admins)))
        | inr n'' ↦ inr (inr (inr (ground (arith, h, n, n', n''))))
      ]
    ]
  ]

  entry-IsAllowed :
      (sid part : String)
      → is_foreign sec sid part ≡ false
      → IsGrant part
      → IsAllowed sid (field 5 part)
  unfolding is_foreign
  entry-IsAllowed sid part h g =
      IsAllowed-of_allowed sid (field 5 part)
        (ground (arith, h, g.whole, g.allows, eq_iff (field 0 part) "A"))

  check_entries-IsAllowed :
      (sid : String) (parts : List String)
      → check_entries sec sid parts ≡ none
      → (part : String) → Memᴰ part parts
      → IsGrant part
      → IsAllowed sid (field 5 part)
  unfolding check_entries
  check_entries-IsAllowed sid [] h part m g = elim m [ ]
  check_entries-IsAllowed sid (p ∷ parts) h part (Memᴰ.head e) g =
      let home : is_foreign sec sid p ≡ false = ground (arith, h) in
      entry-IsAllowed sid part (ap (is_foreign sec sid) e ∙ home) g
  check_entries-IsAllowed sid (p ∷ parts) h part (Memᴰ.tail m) g =
      check_entries-IsAllowed sid parts (ground (arith, h)) part m g

  -- A descriptor whose access list is protected, and lets nobody else in with an entry that is read.
  pub record IsPrivate (sid sddl : String) : Type 0 where
    pub protected : contains sddl "D:P" ≡ true
    pub known : sec.is_sid sid ≡ true
    pub own :
        (part : String)
        → Memᴰ part (entries_of sec sddl)
        → IsGrant part
        → IsAllowed sid (field 5 part)

  verify_sddl-IsPrivate : (sddl sid : String) → verify_sddl sec sddl sid ≡ none → IsPrivate sid sddl
  unfolding verify_sddl
  verify_sddl-IsPrivate sddl sid h = record {
    protected = ground (arith, h);
    known = ground (arith, h);
    own = check_entries-IsAllowed sid (entries_of sec sddl) (ground (arith, h));
  }

  pub verify_secure_acl-IsPrivate :
      (path sid : String) (d : D)
      → verify_secure_acl sec path sid d ≡ none
      → (sddl : String) × (sec.get_sddl path d ≡ some (some sddl)) × IsPrivate sid sddl
  unfolding verify_secure_acl
  verify_secure_acl-IsPrivate path sid d h = elim (Option-cases (sec.get_sddl path d)) [
    | inl unread ↦ absurd (ground (arith, h, unread))
    | inr (text, e) ↦ elim (Option-cases text) [
      | inl bare ↦ absurd (ground (arith, h, e, bare))
      | inr (sddl, e') ↦ (
        sddl,
        e ∙ ap some e',
        verify_sddl-IsPrivate sddl sid
            (rw (e', verify_secure_acl) at (rw (e, verify_secure_acl) at h)),
      )
    ]
  ]
