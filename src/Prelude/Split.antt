-- ===== src/Prelude/Split.antt =====
-- `strings.Split` and `strings.Join` at a separator of one byte, and what a text may hold.
use Prim.Native.Nat.{ℕ, suc, ◌+◌}
use mathlib.Core.Path.{◌≡◌, refl, sym, ap, ◌∙◌}
use mathlib.Core.Logic.{◌≢◌, ◌⊎◌, inl, inr}
use mathlib.Core.Bool.{Bool, true, false, not, ◌&&◌, ◌||◌}
use mathlib.Core.List.{List, [], ◌∷◌, ◌++◌}
use native.Mathlib.Omega.{arith}
use billax.Prelude.Tests.{leb, ◌==◌, ==_iff, if◌then◌else◌, Bool-cases}
use billax.Prelude.Lists.{length}
use billax.Prelude.Strings.{Text}

-- The byte goes to the first part.
abbrev prepend : ℕ → List Text → List Text
prepend c [] = (c ∷ []) ∷ []
prepend c (p ∷ ps) = (c ∷ p) ∷ ps

-- `strings.Split(s, sep)`
unfoldable pub split : ℕ → Text → List Text
split sep [] = [] ∷ []
split sep (c ∷ s) = let rest = split sep s in if c == sep then [] ∷ rest else prepend c rest

-- No byte of the text is `c`.
unfoldable pub lacks : ℕ → Text → Bool
lacks c [] = true
lacks c (d ∷ s) = not (d == c) && lacks c s

-- A text without the separator is one part.
pub split-lacks : (sep : ℕ) (p : Text) → lacks sep p ≡ true → split sep p ≡ p ∷ []
unfolding split lacks
split-lacks sep [] h = refl
split-lacks sep (c ∷ p) h = ground (arith, split-lacks sep p)

-- The text up to the first separator is the first part.
pub split-append :
    (sep : ℕ) (p rest : Text)
    → lacks sep p ≡ true
    → split sep (p ++ sep ∷ rest) ≡ p ∷ split sep rest
unfolding split lacks
split-append sep [] rest h = ground arith
split-append sep (c ∷ p) rest h = ground (arith, split-append sep p rest)

pub lacks-append :
    (c : ℕ) (s t : Text) → lacks c s ≡ true → lacks c t ≡ true → lacks c (s ++ t) ≡ true
unfolding lacks
lacks-append c [] t hs ht = ht
lacks-append c (d ∷ s) t hs ht = ground (arith, lacks-append c s t)

-- Every byte is a digit of a hexadecimal number in lower case, as `hex.EncodeToString` writes them.
unfoldable pub is_hex_text : Text → Bool
is_hex_text [] = true
is_hex_text (c ∷ s) = (leb 48 c && leb c 57 || leb 97 c && leb c 102) && is_hex_text s

-- Such a text has no other byte: here for the three separators of the program.
pub is_hex_text-lacks :
    (c : ℕ) (s : Text)
    → (leb 48 c && leb c 57 || leb 97 c && leb c 102) ≡ false
    → is_hex_text s ≡ true
    → lacks c s ≡ true
unfolding is_hex_text lacks
is_hex_text-lacks c [] h p = refl
is_hex_text-lacks c (d ∷ s) h p = ground (arith, is_hex_text-lacks c s)

-- There is a part.
prepend-ne-nil : (c : ℕ) (ps : List Text) → prepend c ps ≢ []
prepend-ne-nil c [] h = cc h
prepend-ne-nil c (p ∷ ps) h = cc h

split-ne-nil : (sep : ℕ) (s : Text) → split sep s ≢ []
unfolding split
split-ne-nil sep [] = λ h. cc h
split-ne-nil sep (c ∷ s) = elim (Bool-cases (c == sep)) [
  | inl cut ↦ rw cut (λ h. cc h)
  | inr goes_on ↦ rw goes_on (prepend-ne-nil c (split sep s))
]

-- How often a byte occurs.
abbrev count : ℕ → Text → ℕ
count c [] = 0
count c (d ∷ s) = if d == c then suc (count c s) else count c s

count-append : (c : ℕ) (s t : Text) → count c (s ++ t) ≡ count c s + count c t
count-append c [] t = omega arith
count-append c (d ∷ s) t = ground (arith, count-append c s t)

count_self : (c : ℕ) (s : Text) → count c (c ∷ s) ≡ suc (count c s)
count_self c s = rw ((==_iff c c).1 refl) refl

count-lacks : (c : ℕ) (s : Text) → count c s ≡ 0 → lacks c s ≡ true
unfolding lacks
count-lacks c [] h = refl
count-lacks c (d ∷ s) h = ground (arith, h, count-lacks c s)

length-prepend : (c : ℕ) (ps : List Text) → ps ≢ [] → length (prepend c ps) ≡ length ps
length-prepend c [] h = absurd (h refl)
length-prepend c (p ∷ ps) h = refl

-- There is one part more than there are separators.
length-split : (sep : ℕ) (s : Text) → length (split sep s) ≡ suc (count sep s)
unfolding split
length-split sep [] = omega arith
length-split sep (c ∷ s) = elim (Bool-cases (c == sep)) [
  | inl cut ↦ rw cut (omega (arith, length-split sep s))
  | inr goes_on ↦
      rw goes_on (length-prepend c (split sep s) (split-ne-nil sep s) ∙ length-split sep s)
]

-- A text of three that are joined has three parts only if none of them has a separator.
pub split_three :
    (sep : ℕ) (a b c : Text)
    → length (split sep (a ++ sep ∷ (b ++ sep ∷ c))) ≡ 3
    → (lacks sep a ≡ true) × (lacks sep b ≡ true) × (lacks sep c ≡ true)
split_three sep a b c h =
    let tail = b ++ sep ∷ c in
    let total : suc (count sep a + suc (count sep b + suc (count sep c))) ≡ 3 = omega (
      arith,
      h,
      length-split sep (a ++ sep ∷ tail),
      count-append sep a (sep ∷ tail),
      count_self sep tail,
      count-append sep b (sep ∷ c),
      count_self sep c,
    ) in
    (
      count-lacks sep a (omega (arith, total)),
      count-lacks sep b (omega (arith, total)),
      count-lacks sep c (omega (arith, total)),
    )

-- `strings.Join(parts, sep)`
abbrev pub join : ℕ → List Text → Text
join sep [] = []
join sep (p ∷ []) = p
join sep (p ∷ q ∷ ps) = p ++ sep ∷ join sep (q ∷ ps)

join-prepend : (sep c : ℕ) (ps : List Text) → ps ≢ [] → join sep (prepend c ps) ≡ c ∷ join sep ps
join-prepend sep c [] h = absurd (h refl)
join-prepend sep c (p ∷ []) h = refl
join-prepend sep c (p ∷ q ∷ ps) h = refl

join_after : (sep : ℕ) (ps : List Text) → ps ≢ [] → join sep ([] ∷ ps) ≡ sep ∷ join sep ps
join_after sep [] h = absurd (h refl)
join_after sep (p ∷ ps) h = refl

-- What was split is joined again.
pub join-split : (sep : ℕ) (s : Text) → join sep (split sep s) ≡ s
unfolding split
join-split sep [] = refl
join-split sep (c ∷ s) = elim (Bool-cases (c == sep)) [
  | inl cut ↦ rw cut (
      join_after sep (split sep s) (split-ne-nil sep s)
      ∙ ap (λ t. sep ∷ t) (join-split sep s)
      ∙ ap (λ d. d ∷ s) (sym ((==_iff c sep).0 cut)))
  | inr goes_on ↦
      rw goes_on
        (join-prepend sep c (split sep s) (split-ne-nil sep s) ∙ ap (λ t. c ∷ t) (join-split sep s))
]

-- A text is one of a list.
abbrev pub IsOneOf : Text → List Text → Type 0
IsOneOf t [] = ⊥
IsOneOf t (p ∷ ps) = (p ≡ t) ⊎ IsOneOf t ps
