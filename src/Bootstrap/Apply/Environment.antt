-- ===== src/Bootstrap/Apply/Environment.antt =====
-- The environment that the configured program is given.
use Prim.Native.String.{◌++◌ as ◌<>◌}
use text.Mathlib.TextLemmas.{append_assoc, cons-append, nil-append}
use forge_grid.Prelude.{
  String, ◌≡◌, refl, ap, ◌∙◌, Bool, true, not, some, List, [], ◌∷◌, ◌++◌, Bool-cases, inl, inr,
  if◌then◌else◌, cut_at, cut_at-append, Char, IsWithout-of_lacks,
}
use forge_grid.Bootstrap.Apply.{sets_local, other_entries, environment_with_local_app_data}

append-nil : (xs : List String) → xs ++ [] ≡ xs
append-nil [] = refl
append-nil (x ∷ xs) = ap (λ (l : List String). x ∷ l) (append-nil xs)

-- The entries that pass a test.
unfoldable pub filter : (String → Bool) → List String → List String
filter test [] = []
filter test (s ∷ more) = let rest = filter test more in if test s then s ∷ rest else rest

filter-append :
    (test : String → Bool) (xs ys : List String)
    → filter test (xs ++ ys) ≡ filter test xs ++ filter test ys
unfolding filter
filter-append test [] ys = refl
filter-append test (x ∷ xs) ys = elim (Bool-cases (test x)) [
  | inl kept ↦ rw kept (ap (λ (l : List String). x ∷ l) (filter-append test xs ys))
  | inr left ↦ rw left (filter-append test xs ys)
]

other_entries-none :
    (eq : String → String → Bool) (environ : List String)
    → filter (sets_local eq) (other_entries eq environ) ≡ []
unfolding other_entries filter
other_entries-none eq [] = refl
other_entries-none eq (entry ∷ environ) = elim (Bool-cases (sets_local eq entry)) [
  | inl local ↦ rw local (other_entries-none eq environ)
  | inr other ↦ rw other (rw other (other_entries-none eq environ))
]

other_entries-rest :
    (eq : String → String → Bool) (environ : List String)
    → filter (λ s. not (sets_local eq s)) (other_entries eq environ)
      ≡ filter (λ s. not (sets_local eq s)) environ
unfolding other_entries filter
other_entries-rest eq [] = refl
other_entries-rest eq (entry ∷ environ) = elim (Bool-cases (sets_local eq entry)) [
  | inl local ↦ rw local (other_entries-rest eq environ)
  | inr other ↦
      rw other (rw other (ap (λ (l : List String). entry ∷ l) (other_entries-rest eq environ)))
]

abbrev equals : Char
equals = "="

new_entry-local :
    (eq : String → String → Bool) (local : String)
    → eq "LOCALAPPDATA" "LOCALAPPDATA" ≡ true
    → sets_local eq ("LOCALAPPDATA=" <> local) ≡ true
unfolding sets_local
new_entry-local eq local h = rw (assigned local, sets_local) h
  where
    assigned : (v : String) → cut_at b'=' ("LOCALAPPDATA=" <> v) ≡ some ("LOCALAPPDATA", v)
    assigned v =
        ap (cut_at b'=') (
          append_assoc "LOCALAPPDATA" "=" v
          ∙ ap (λ (t : String). "LOCALAPPDATA" <> t)
              (cons-append equals String.[] v
                ∙ ap (λ (t : String). String.◌∷◌ equals t) (nil-append v)))
        ∙ cut_at-append equals "LOCALAPPDATA" v (IsWithout-of_lacks b'=' "LOCALAPPDATA" refl)

-- The program is run with exactly one entry that sets LOCALAPPDATA, to the given value, and with all
-- other entries as they were and in their order, if EqualFold holds of the name and itself.
pub environment_with_local_app_data_exact :
    (eq : String → String → Bool) (environ : List String) (local : String)
    → eq "LOCALAPPDATA" "LOCALAPPDATA" ≡ true
    → let result = environment_with_local_app_data eq environ local in
      (filter (sets_local eq) result ≡ ("LOCALAPPDATA=" <> local) ∷ [])
      × (filter (λ s. not (sets_local eq s)) result ≡ filter (λ s. not (sets_local eq s)) environ)
unfolding environment_with_local_app_data filter
environment_with_local_app_data_exact eq environ local h =
    let entry = "LOCALAPPDATA=" <> local in
    let is_local = new_entry-local eq local h in
    (
      filter-append (sets_local eq) (other_entries eq environ) (entry ∷ [])
          ∙ ap (λ (l : List String). l ++ filter (sets_local eq) (entry ∷ []))
              (other_entries-none eq environ)
          ∙ rw is_local refl,
      filter-append (λ s. not (sets_local eq s)) (other_entries eq environ) (entry ∷ [])
          ∙ rw is_local
              (append-nil (filter (λ s. not (sets_local eq s)) (other_entries eq environ)))
          ∙ other_entries-rest eq environ,
    )
