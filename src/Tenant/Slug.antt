-- ===== src/Tenant/Slug.antt =====
-- internal/tenant/service.go: the slugs of tenants.
use mathlib.Core.List.{reverse, reverse-cons}
use billax.Prelude.{
  all-select, all-take, all-append, length-take, ℕ, ◌≤◌, ◌≡◌, refl, Bool, true, false, not, ◌&&◌,
  ◌||◌, Option, none, some, [], ◌∷◌, arith, ltb, leb, ◌==◌, if◌then◌else◌, length, take, select,
  all, Text, codes, byte_len, Unicode, lower_rune, to_lower,
}
use billax.Errors.{FieldError}
use billax.Validation.{field_error}

-- `[a-z0-9\-]`
abbrev pub is_slug_rune : ℕ → Bool
is_slug_rune c = leb 97 c && leb c 122 || leb 48 c && leb c 57 || c == 45

-- `strings.ReplaceAll(slug, " ", "-")`
abbrev pub hyphenate : Text → Text
hyphenate [] = []
hyphenate (c ∷ s) = (if c == 32 then 45 else c) ∷ hyphenate s

unfoldable pub trim_hyphens : Text → Text
trim_hyphens [] = []
trim_hyphens (c ∷ s) = let rest = trim_hyphens s in if c == 45 then rest else c ∷ s

-- `strings.Trim(slug, "-")`
abbrev pub trim : Text → Text
trim s = reverse (trim_hyphens (reverse (trim_hyphens s)))

-- `generateSlugFromName`: what is left after the removal is ASCII, so that bytes are code points.
unfoldable pub generate_slug_from_name : Unicode → Text → Text
unfolding trim_hyphens to_lower lower_rune
generate_slug_from_name u name = take 100 (trim (select is_slug_rune (hyphenate (to_lower u name))))

-- `validateSlug`
unfoldable pub validate_slug : Text → Option FieldError
validate_slug slug =
    if ltb (byte_len slug) 2
    then some (field_error (codes "slug") (codes "must be at least 2 characters"))
    else if ltb 100 (byte_len slug)
    then some (field_error (codes "slug") (codes "must be at most 100 characters"))
    else if not (all is_slug_rune slug)
    then some (
        field_error (codes "slug")
          (codes "must contain only lowercase letters, numbers, and hyphens"))
    else none

-- What each step of the generation leaves of the alphabet.
all-trim_hyphens : (p : ℕ → Bool) (s : Text) → all p s ≡ true → all p (trim_hyphens s) ≡ true
unfolding trim_hyphens
all-trim_hyphens p [] h = refl
all-trim_hyphens p (c ∷ s) h = ground (arith, h, all-trim_hyphens p s)

all-reverse : (p : ℕ → Bool) (s : Text) → all p s ≡ true → all p (reverse s) ≡ true
all-reverse p [] h = refl
all-reverse p (c ∷ s) h =
    rw (reverse-cons c s)
      (all-append p (reverse s) (c ∷ []) (all-reverse p s (ground (arith, h))) (ground (arith, h)))

byte_len-slug : (s : Text) → all is_slug_rune s ≡ true → byte_len s ≡ length s
byte_len-slug [] h = refl
byte_len-slug (c ∷ s) h = ground (arith, h, byte_len-slug s)

validate_slug_fits :
    (s : Text) → 2 ≤ length s → length s ≤ 100 → all is_slug_rune s ≡ true → validate_slug s ≡ none
unfolding validate_slug
validate_slug_fits s long short fits =
    let low : ltb (length s) 2 ≡ false = ground (arith, long) in
    let high : ltb 100 (length s) ≡ false = ground (arith, short) in
    rw (byte_len-slug s fits, low, high, fits) refl

-- A slug that is generated from a name has at most 100 characters, all of them lower-case letters,
-- digits or hyphens; with two characters or more it passes the check of slugs that are given.
pub generate_slug_from_name_lem :
    (u : Unicode) (name : Text)
    → (length (generate_slug_from_name u name) ≤ 100)
      × (all is_slug_rune (generate_slug_from_name u name) ≡ true)
      × (2 ≤ length (generate_slug_from_name u name)
          → validate_slug (generate_slug_from_name u name) ≡ none)
unfolding generate_slug_from_name
generate_slug_from_name_lem u name =
    let kept = select is_slug_rune (hyphenate (to_lower u name)) in
    let left = trim_hyphens kept in
    let fits : all is_slug_rune (generate_slug_from_name u name) ≡ true =
      all-take is_slug_rune 100 (trim kept) (
        all-reverse is_slug_rune (trim_hyphens (reverse left)) (
          all-trim_hyphens is_slug_rune (reverse left) (
            all-reverse is_slug_rune left (
              all-trim_hyphens is_slug_rune kept
                (all-select is_slug_rune (hyphenate (to_lower u name))))))) in
    let short : length (generate_slug_from_name u name) ≤ 100 = length-take 100 (trim kept) in
    (short, fits, λ long. validate_slug_fits (generate_slug_from_name u name) long short fits)
