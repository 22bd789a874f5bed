-- ===== src/Bootstrap/Bytes.antt =====
-- Go's conversion of a text to its bytes in UTF-8, and a 32-bit length in big-endian order.
use Prim.Native.Char.{code}
use text.Mathlib.TextEquality.{Char-path}
use forge_grid.Prelude.{
  ℕ, ◌+◌, ◌/◌, ◌%◌, ◌^◌, ◌<◌, ◌≡◌, ◌≢◌, refl, sym, String, List, [], ◌∷◌, ◌++◌, ltb, if◌then◌else◌,
  arith, length,
}

abbrev pub Bytes : Type 0
Bytes = List ℕ

unfoldable pub encode_rune : ℕ → Bytes
encode_rune c =
    if ltb c 128
    then c ∷ []
    else if ltb c 2048
    then (192 + c / 64) ∷ (128 + c % 64) ∷ []
    else if ltb c 65536
    then (224 + c / 4096) ∷ (128 + c / 64 % 64) ∷ (128 + c % 64) ∷ []
    else (240 + c / 262144) ∷ (128 + c / 4096 % 64) ∷ (128 + c / 64 % 64) ∷ (128 + c % 64) ∷ []

-- []byte(s)
unfoldable pub utf8 : String → Bytes
utf8 String.[] = []
utf8 (String.◌∷◌ c s) = encode_rune (code c) ++ utf8 s

-- The bytes of a uint32, the highest first.
unfoldable pub big_endian : ℕ → Bytes
big_endian n = (n / 2 ^ 24 % 256) ∷ (n / 2 ^ 16 % 256) ∷ (n / 2 ^ 8 % 256) ∷ (n % 256) ∷ []

encode_rune_prefix :
    (a b : ℕ) (s t : Bytes) → encode_rune a ++ s ≡ encode_rune b ++ t → (a ≡ b) × (s ≡ t)
unfolding encode_rune
encode_rune_prefix a b s t h = ground arith

pub big_endian_inj : (m n : ℕ) → m < 2 ^ 32 → n < 2 ^ 32 → big_endian m ≡ big_endian n → m ≡ n
unfolding big_endian
big_endian_inj m n hm hn e = ground (arith, hm, hn, e)

encode_rune-ne-nil : (c : ℕ) (s : Bytes) → encode_rune c ++ s ≢ []
unfolding encode_rune
encode_rune-ne-nil c s h = ground (arith, h)

-- Two texts with the same bytes are one.
pub utf8_inj : (s t : String) → utf8 s ≡ utf8 t → s ≡ t
unfolding utf8
utf8_inj String.[] String.[] h = refl
utf8_inj String.[] (String.◌∷◌ c t) h = absurd (encode_rune-ne-nil (code c) (utf8 t) (sym h))
utf8_inj (String.◌∷◌ c s) String.[] h = absurd (encode_rune-ne-nil (code c) (utf8 s) h)
utf8_inj (String.◌∷◌ c s) (String.◌∷◌ d t) h =
    let (same, rest) = encode_rune_prefix (code c) (code d) (utf8 s) (utf8 t) h in
    cc (Char-path c d same, utf8_inj s t rest)

pub append_inj {ℓ} :
    {A : Type ℓ} (xs ys : List A) (a b : List A)
    → length xs ≡ length ys
    → xs ++ a ≡ ys ++ b
    → (xs ≡ ys) × (a ≡ b)
append_inj [] [] a b l e = (refl, e)
append_inj [] (y ∷ ys) a b l e = absurd (omega arith)
append_inj (x ∷ xs) [] a b l e = absurd (omega arith)
append_inj (x ∷ xs) (y ∷ ys) a b l e =
    let (same, rest) = append_inj xs ys a b (omega arith) (cc) in (cc, rest)

-- len(s): Go counts the bytes of a string.
unfoldable pub byte_len : String → ℕ
unfolding utf8
byte_len s = length (utf8 s)
