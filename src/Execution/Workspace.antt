-- ===== src/Execution/Workspace.antt =====
-- The paths that SecureWorkspacePath lets through.
use Prim.Native.String.{◌++◌}
use forge_grid.Prelude.{
  ◌≡◌, refl, ◌⊎◌, inl, inr, ◌↔◌, String, true, arith, ◌==◌, eq_iff, Bool-cases, Option-cases,
  cut_prefix, cut_prefix_sound, cut_prefix-append,
}
use forge_grid.Execution.{Paths, has_prefix, is_inside}

has_prefix_iff :
    (s prefix : String) → (has_prefix s prefix ≡ true) ↔ ((rest : String) × (s ≡ prefix ++ rest))
has_prefix_iff s prefix = (
  λ h. elim (Option-cases (cut_prefix prefix s)) [
    | inl missed ↦ absurd (ground (arith, missed, h))
    | inr (rest, found) ↦ (rest, cut_prefix_sound prefix s rest found)
  ],
  λ (rest, e). rw e (rw (cut_prefix-append prefix rest, has_prefix) refl),
)

module _ (fp : Paths) where
  -- The root itself, or a path whose lower-case form continues that of the root and a separator.
  abbrev pub IsBelow : String → String → Type 0
  IsBelow root target =
      (fp.clean target ≡ fp.clean root)
      ⊎ ((rest : String) × (fp.to_lower (fp.clean target)
            ≡ fp.to_lower (fp.clean root ++ fp.separator) ++ rest))

  pub is_inside_iff :
      (root target : String) → (is_inside fp root target ≡ true) ↔ IsBelow root target
  unfolding is_inside
  is_inside_iff root target =
      let prefix =
        has_prefix_iff (fp.to_lower (fp.clean target))
          (fp.to_lower (fp.clean root ++ fp.separator)) in
      (
        λ h. elim (Bool-cases (fp.clean target == fp.clean root)) [
          | inl same ↦ inl ((eq_iff (fp.clean target) (fp.clean root)).0 same)
          | inr other ↦ inr (prefix.0 (ground (arith, h, other)))
        ],
        λ b. elim b [
          | inl same ↦ ground (arith, same, eq_iff (fp.clean target) (fp.clean root))
          | inr below ↦ ground (arith, prefix.1 below)
        ],
      )
