-- ===== src/Prelude/Strings.antt =====
-- Go strings. A value of `Text` is the list of the code points of a valid UTF-8 string (what
-- `encoding/json` and the router hand over is valid UTF-8); `byte_len` is Go's `len`.
use Prim.Native.Nat.{ℕ, zero, suc, ◌+◌, ◌-◌, ◌/◌, ◌%◌, ◌<◌}
use Prim.Native.Char.{code}
use Prim.Native.String.{String}
use mathlib.Core.Path.{◌≡◌, refl}
use mathlib.Core.Logic.{inl, inr}
use mathlib.Core.Bool.{Bool, true, false, ◌&&◌, ◌||◌}
use mathlib.Core.List.{List, [], ◌∷◌, ◌++◌, map, reverse}
use native.Mathlib.Omega.{arith}
use billax.Prelude.Tests.{ltb, leb, ◌==◌, if◌then◌else◌, Bool-cases}

abbrev pub Text : Type 0
Text = List ℕ

-- A literal of the source.
abbrev pub codes : String → Text
codes String.[] = []
codes (String.◌∷◌ c s) = code c ∷ codes s

-- The Go expression `a == b` on strings.
unfoldable pub text_eq : Text → Text → Bool
text_eq [] [] = true
text_eq (c ∷ s) (d ∷ t) = c == d && text_eq s t
text_eq _ _ = false

-- The bytes of a code point in UTF-8.
abbrev pub rune_len : ℕ → ℕ
rune_len c = if ltb c 128 then 1 else if ltb c 2048 then 2 else if ltb c 65536 then 3 else 4

abbrev pub byte_len : Text → ℕ
byte_len [] = 0
byte_len (c ∷ s) = rune_len c + byte_len s

-- Go's `unicode.IsSpace`, the White_Space property.
unfoldable pub is_space : ℕ → Bool
is_space c =
    leb 9 c && leb c 13
    || c == 32
    || c == 133
    || c == 160
    || c == 5760
    || leb 8192 c && leb c 8202
    || c == 8232
    || c == 8233
    || c == 8239
    || c == 8287
    || c == 12288

unfoldable pub trim_left : Text → Text
trim_left [] = []
trim_left (c ∷ s) = let rest = trim_left s in if is_space c then rest else c ∷ s

-- Go's `strings.TrimSpace`.
unfoldable pub trim_space : Text → Text
trim_space s = reverse (trim_left (reverse (trim_left s)))

-- The tables of the Unicode standard that Go's strings package reads, above ASCII: the lower-case and
-- upper-case forms of a code point, and how `%q` writes it.
pub record Unicode : Type 0 where
  pub lower_above : ℕ → ℕ
  pub upper_above : ℕ → ℕ
  pub quote_above : ℕ → Text

-- `unicode.ToLower`, `unicode.ToUpper`
unfoldable pub lower_rune : Unicode → ℕ → ℕ
lower_rune u c = if ltb c 128 then (if leb 65 c && leb c 90 then c + 32 else c) else u.lower_above c

unfoldable pub upper_rune : Unicode → ℕ → ℕ
upper_rune u c =
    if ltb c 128 then (if leb 97 c && leb c 122 then c - 32 else c) else u.upper_above c

-- `strings.ToLower`, `strings.ToUpper`
unfoldable pub to_lower : Unicode → Text → Text
unfolding lower_rune
to_lower u s = map (lower_rune u) s

unfoldable pub to_upper : Unicode → Text → Text
unfolding upper_rune
to_upper u s = map (upper_rune u) s

-- `strings.ToLower(strings.TrimSpace(s))`
unfoldable pub fold_case : Unicode → Text → Text
unfolding to_lower trim_space trim_left is_space
fold_case u s = to_lower u (trim_space s)

-- `%d` of a number: its decimal digits, the last one first found. The fuel `suc n` is enough, as
-- each round divides by ten.
pub show_digits : ℕ → ℕ → Text → Text
show_digits zero n acc = acc
show_digits (suc fuel) n acc =
    let rest = show_digits fuel (n / 10) ((48 + n % 10) ∷ acc) in
    if ltb n 10 then (48 + n % 10) ∷ acc else rest

unfoldable pub show_number : ℕ → Text
unfolding show_digits
show_number n = show_digits (suc n) n []

-- More fuel than the number changes nothing.
pub show_digits_fuel :
    (f g n : ℕ) (acc : Text) → n < f → n < g → show_digits f n acc ≡ show_digits g n acc
unfolding show_digits
show_digits_fuel zero g n acc hf hg = absurd (omega arith)
show_digits_fuel (suc f) zero n acc hf hg = absurd (omega arith)
show_digits_fuel (suc f) (suc g) n acc hf hg = elim (Bool-cases (ltb n 10)) [
  | inl small ↦ rw small
  | inr large ↦
      rw large (show_digits_fuel f g (n / 10) ((48 + n % 10) ∷ acc) (ground arith) (ground arith))
]

shown : show_number 1208 ≡ codes "1208"
unfolding show_number
shown = refl

-- How `%q` writes one code point.
abbrev hex_digit : ℕ → ℕ
hex_digit d = if ltb d 10 then d + 48 else d + 87

abbrev quote_rune : Unicode → ℕ → Text
quote_rune u c =
    if c == 34 || c == 92
    then 92 ∷ c ∷ []
    else if leb 32 c && leb c 126
    then c ∷ []
    else if leb 7 c && leb c 13
    then 92
      ∷ elim (c - 7) [
        | zero ↦ 97
        | suc zero ↦ 98
        | suc (suc zero) ↦ 116
        | suc (suc (suc zero)) ↦ 110
        | suc (suc (suc (suc zero))) ↦ 118
        | suc (suc (suc (suc (suc zero)))) ↦ 102
        | suc (suc (suc (suc (suc (suc _))))) ↦ 114
      ]
      ∷ []
    else if ltb c 128
    then 92 ∷ 120 ∷ hex_digit (c / 16) ∷ hex_digit (c % 16) ∷ []
    else u.quote_above c

quote_runes : Unicode → Text → Text
quote_runes u [] = 34 ∷ []
quote_runes u (c ∷ s) = quote_rune u c ++ quote_runes u s

-- `%q` of a string.
unfoldable pub quote : Unicode → Text → Text
unfolding quote_runes
quote u s = 34 ∷ quote_runes u s

-- ASCII alone: a table that moves nothing above it.
abbrev pub ascii : Unicode
ascii = record { lower_above = λ c. c; upper_above = λ c. c; quote_above = λ c. c ∷ [] }

-- `==` on strings decides equality.
pub text_eq→eq : (s t : Text) → text_eq s t ≡ true → s ≡ t
unfolding text_eq
text_eq→eq [] [] h = refl
text_eq→eq [] (d ∷ t) h = cc
text_eq→eq (c ∷ s) [] h = cc
text_eq→eq (c ∷ s) (d ∷ t) h = ground (arith, text_eq→eq s t)

pub text_eq_refl : (s : Text) → text_eq s s ≡ true
unfolding text_eq
text_eq_refl [] = refl
text_eq_refl (c ∷ s) = ground (arith, text_eq_refl s)

pub eq→text_eq : (s t : Text) → s ≡ t → text_eq s t ≡ true
eq→text_eq s t e = rw e (text_eq_refl t)

pub text_eq_symm : (s t : Text) → text_eq s t ≡ text_eq t s
unfolding text_eq
text_eq_symm [] [] = refl
text_eq_symm [] (d ∷ t) = refl
text_eq_symm (c ∷ s) [] = refl
text_eq_symm (c ∷ s) (d ∷ t) = ground (arith, text_eq_symm s t)
