-- ===== src/Prelude/Text.antt =====
-- What the program uses of Go's package strings, over code points.
use Prim.Native.Nat.{ℕ}
use Prim.Native.Char.{Char, code}
use Prim.Native.String.{String, [], ◌∷◌, ◌++◌}
use mathlib.Core.Path.{◌≡◌, refl, ap}
use mathlib.Core.Logic.{◌≢◌, inl, inr}
use mathlib.Core.Bool.{Bool, true, false}
use mathlib.Core.Option.{Option, none, some}
use mathlib.Core.List.{List}
use native.Mathlib.Omega.{arith}
use text.Mathlib.TextEquality.{Char-path}
use text.Mathlib.TextLemmas.{nil-append, cons-append}
use mathlib.Core.Bool.{◌&&◌, ◌||◌}
use forge_grid.Prelude.Tests.{nat_eq, leb, if◌then◌else◌, Bool-cases}
use forge_grid.Prelude.Lists.{one_part, new_part, change_first}

-- strings.CutPrefix: the rest of the text behind the prefix, if it has that prefix.
unfoldable pub cut_prefix : String → String → Option String
cut_prefix [] s = some s
cut_prefix (p ∷ ps) [] = none
cut_prefix (p ∷ ps) (c ∷ s) =
    let rest = cut_prefix ps s in if nat_eq (code p) (code c) then rest else none

abbrev cut_or : String → Option String → String
cut_or s none = s
cut_or s (some rest) = rest

-- strings.TrimPrefix(s, prefix)
unfoldable pub trim_prefix : String → String → String
unfolding cut_prefix
trim_prefix prefix s = cut_or s (cut_prefix prefix s)

abbrev before : Char → Option (String × String) → Option (String × String)
before c none = none
before c (some (a, b)) = some (c ∷ a, b)

-- strings.Cut at a separator of one character: what stands before the first one, and behind it.
unfoldable pub cut_at : ℕ → String → Option (String × String)
cut_at sep [] = none
cut_at sep (c ∷ s) =
    let rest = cut_at sep s in if nat_eq (code c) sep then some ([], s) else before c rest

abbrev pub IsWithout : ℕ → String → Type 0
IsWithout sep [] = Unit
IsWithout sep (c ∷ s) = (code c ≢ sep) × IsWithout sep s

abbrev pub lacks : ℕ → String → Bool
lacks sep [] = true
lacks sep (c ∷ s) = let rest = lacks sep s in if nat_eq (code c) sep then false else rest

pub IsWithout-of_lacks : (sep : ℕ) (s : String) → lacks sep s ≡ true → IsWithout sep s
IsWithout-of_lacks sep [] h = tt
IsWithout-of_lacks sep (c ∷ s) h = (ground (arith, h), IsWithout-of_lacks sep s (ground (arith, h)))

pub cut_prefix-append : (p s : String) → cut_prefix p (p ++ s) ≡ some s
unfolding cut_prefix
cut_prefix-append [] s = rw nil-append refl
cut_prefix-append (c ∷ p) s = rw cons-append (ground (arith, cut_prefix-append p s))

pub cut_prefix_sound : (p t s : String) → cut_prefix p t ≡ some s → t ≡ p ++ s
unfolding cut_prefix
cut_prefix_sound [] t s h = rw nil-append (ground arith)
cut_prefix_sound (c ∷ p) [] s h = absurd (ground arith)
cut_prefix_sound (c ∷ p) (d ∷ t) s h =
    rw cons-append (ground (arith, Char-path c d, cut_prefix_sound p t s))

pub cut_at-append :
    (sep : Char) (a b : String)
    → IsWithout (code sep) a
    → cut_at (code sep) (a ++ sep ∷ b) ≡ some (a, b)
unfolding cut_at
cut_at-append sep [] b h = rw nil-append (ground arith)
cut_at-append sep (c ∷ a) b (n, h) = rw cons-append (ground (arith, n, cut_at-append sep a b h))

before-eq-some :
    (c : Char) (o : Option (String × String)) (a b : String)
    → before c o ≡ some (a, b)
    → (a' : String) × (o ≡ some (a', b)) × (a ≡ c ∷ a')
before-eq-some c none a b h = absurd (ground arith)
before-eq-some c (some (a', b')) a b h = (a', ground arith, ground arith)

pub cut_at_sound :
    (sep : Char) (t a b : String)
    → cut_at (code sep) t ≡ some (a, b)
    → (t ≡ a ++ sep ∷ b) × IsWithout (code sep) a
unfolding cut_at
cut_at_sound sep [] a b h = absurd (ground arith)
cut_at_sound sep (c ∷ t) a b h = elim (Bool-cases (nat_eq (code c) (code sep))) [
  | inl here ↦
      let e : a ≡ [] = ground arith in
      (rw e (rw nil-append (ground (arith, Char-path c sep))), rw e tt)
  | inr later ↦
      let (a', found, e) = before-eq-some c (cut_at (code sep) t) a b (ground arith) in
      let (split, free) = cut_at_sound sep t a' b found in
      (rw e (rw cons-append (ap (λ (s : String). c ∷ s) split)), rw e (ground arith, free))
]

-- s[:strings.LastIndex(s, sep)], or all of s if it has no sep.
abbrev keep_head : Bool → Char → Option String → Option String
keep_head true c none = some []
keep_head false c none = none
keep_head here c (some a) = some (c ∷ a)

unfoldable pub before_last : ℕ → String → Option String
before_last sep [] = none
before_last sep (c ∷ s) = keep_head (nat_eq (code c) sep) c (before_last sep s)

-- strings.Split at a separator of one character.
unfoldable pub split : ℕ → String → List String
split sep [] = one_part
split sep (c ∷ s) =
    let rest = split sep s in
    if nat_eq (code c) sep then new_part rest else change_first (λ (p : String). c ∷ p) rest

-- unicode.IsSpace
abbrev pub is_space : ℕ → Bool
is_space c =
    (leb 9 c && leb c 13)
    || (nat_eq c 32
        || (nat_eq c 133
            || (nat_eq c 160
                || (nat_eq c 5760
                    || ((leb 8192 c && leb c 8202)
                        || (nat_eq c 8232
                            || (nat_eq c 8233
                                || (nat_eq c 8239 || (nat_eq c 8287 || nat_eq c 12288)))))))))

-- strings.TrimSpace(s) == ""
unfoldable pub is_blank : String → Bool
is_blank [] = true
is_blank (c ∷ s) = is_space (code c) && is_blank s

-- The text without the white space at its end, and strings.TrimSpace.
unfoldable pub trim_right : String → String
unfolding is_blank
trim_right [] = []
trim_right (c ∷ s) = let rest = trim_right s in if is_blank (c ∷ s) then [] else c ∷ rest

unfoldable pub trim_space : String → String
unfolding trim_right
trim_space [] = []
trim_space (c ∷ s) =
    let rest = trim_space s in if is_space (code c) then rest else trim_right (c ∷ s)

-- strings.Contains(s, p)
unfoldable pub contains : String → String → Bool
unfolding cut_prefix
contains [] p = elim (cut_prefix p []) [ none ↦ false | some _ ↦ true ]
contains (c ∷ s) p =
    let rest = contains s p in elim (cut_prefix p (c ∷ s)) [ none ↦ rest | some _ ↦ true ]

-- s[:strings.Index(s, p)], or all of s if it does not contain p, which is not empty.
unfoldable pub before_text : String → String → String
unfolding cut_prefix
before_text p [] = []
before_text p (c ∷ s) =
    let rest = before_text p s in elim (cut_prefix p (c ∷ s)) [ none ↦ c ∷ rest | some _ ↦ [] ]

abbrev is_empty : String → Bool
is_empty [] = true
is_empty (c ∷ s) = false

-- strings.TrimRight with a cutset of one character.
unfoldable pub trim_right_char : ℕ → String → String
trim_right_char sep [] = []
trim_right_char sep (c ∷ s) =
    let rest = trim_right_char sep s in
    if nat_eq (code c) sep && is_empty rest then [] else c ∷ rest
