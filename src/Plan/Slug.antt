-- ===== src/Plan/Slug.antt =====
-- `isValidSlugFormat` and the validation of internal/plan/service.go.
use billax.Prelude.{
  ℕ, ◌≤◌, ◌≡◌, refl, Bool, true, false, not, ◌&&◌, ◌||◌, Option, none, some, [], ◌∷◌, arith, ltb,
  leb, ◌==◌, if◌then◌else◌, length, all, pos, ltb_ℤ, Text, codes, text_eq, byte_len, Unicode,
  fold_case,
}
use billax.Result.{Result}
use billax.Errors.{same, FieldError}
use billax.Validation.{
  add_all, err_of, field_error, non_empty, max_length, positive_int, valid_enum,
}
use billax.Payment.Service.{currency_check}
use billax.Plan.{Interval, interval_text, CreatePlanInput, UpdatePlanInput}

-- `isAlphanumericLower`
abbrev pub is_alphanumeric_lower : ℕ → Bool
is_alphanumeric_lower c = leb 97 c && leb c 122 || leb 48 c && leb c 57

abbrev pub is_slug_char : ℕ → Bool
is_slug_char c = is_alphanumeric_lower c || c == b'-'

-- The source looks at the first and the last byte, here the first and the last code point: a byte of
-- a longer code point is not alphanumeric either. 0 stands for a missing one.
abbrev pub first_of : Text → ℕ
first_of [] = 0
first_of (c ∷ s) = c

abbrev pub last_of : Text → ℕ
last_of [] = 0
last_of (c ∷ []) = c
last_of (c ∷ d ∷ s) = last_of (d ∷ s)

-- `isValidSlugFormat`
unfoldable pub is_valid_slug_format : Text → Bool
is_valid_slug_format slug =
    if byte_len slug == 0 || ltb 64 (byte_len slug)
    then false
    else if byte_len slug == 1
    then is_alphanumeric_lower (first_of slug)
    else if not (is_alphanumeric_lower (first_of slug))
        || not (is_alphanumeric_lower (last_of slug))
    then false
    else all is_slug_char slug

byte_len-slug : (s : Text) → all is_slug_char s ≡ true → byte_len s ≡ length s
byte_len-slug [] h = refl
byte_len-slug (c ∷ s) h = ground (arith, byte_len-slug s)

byte_len-pos : (c : ℕ) (s : Text) → 1 ≤ byte_len (c ∷ s)
byte_len-pos c s = ground arith

-- The tests on a string of two characters or more, which has n bytes and k characters.
tests_agree :
    (n k : ℕ) (first last every : Bool)
    → 2 ≤ n
    → (every ≡ true → n ≡ k)
    → (if n == 0 || ltb 64 n
        then false
        else if n == 1
        then first
        else if not first || not last
        then false
        else every)
      ≡ (leb 1 k && leb k 64 && first && last && every)
tests_agree n k first last false two same = ground arith
tests_agree n k first last true two same = let e = same refl in ground (arith, e)

-- For every string: the format is that of 1 to 64 characters, lower-case letters, digits and hyphens,
-- with no hyphen at either end.
pub is_valid_slug_format_lem :
    (s : Text)
    → is_valid_slug_format s ≡ (
        leb 1 (length s)
        && leb (length s) 64
        && is_alphanumeric_lower (first_of s)
        && is_alphanumeric_lower (last_of s)
        && all is_slug_char s)
unfolding is_valid_slug_format
is_valid_slug_format_lem [] = refl
is_valid_slug_format_lem (c ∷ []) = ground arith
is_valid_slug_format_lem (c ∷ d ∷ s) =
    tests_agree (byte_len (c ∷ d ∷ s)) (length (c ∷ d ∷ s)) (is_alphanumeric_lower c)
      (is_alphanumeric_lower (last_of (d ∷ s))) (all is_slug_char (c ∷ d ∷ s))
      (omega (arith, byte_len-pos c [], byte_len-pos d s)) (byte_len-slug (c ∷ d ∷ s))

module _ (u : Unicode) where
  unfoldable pub slug_check : Text → Option FieldError
  unfolding is_valid_slug_format
  slug_check slug =
      if not (text_eq slug []) && not (is_valid_slug_format slug)
      then some (
          field_error (codes "slug")
            (codes "must be lowercase alphanumeric with hyphens, 1-64 chars"))
      else none

  unfoldable pub interval_check : Interval → Option FieldError
  unfolding valid_enum
  interval_check i =
      if text_eq (interval_text i) []
      then none
      else valid_enum (codes "interval") (interval_text i)
          (codes "day" ∷ codes "week" ∷ codes "month" ∷ codes "year" ∷ [])

  -- `validateCreateInput`
  unfoldable pub validate_create_input : CreatePlanInput → Result (Unit {0})
  unfolding slug_check interval_check fold_case non_empty max_length positive_int add_all err_of
  validate_create_input input = err_of (
      add_all [] (
        non_empty (codes "name") input.name
        ∷ max_length (codes "name") input.name 255
        ∷ non_empty (codes "slug") input.slug
        ∷ slug_check (fold_case u input.slug)
        ∷ positive_int (codes "amount") input.amount
        ∷ currency_check u input.currency
        ∷ interval_check input.interval
        ∷ (if ltb_ℤ input.trial_days (pos 0)
            then some (field_error (codes "trial_days") (codes "must not be negative"))
            else none)
        ∷ []))

-- `validateUpdateInput`
unfoldable pub validate_update_input : UpdatePlanInput → Result (Unit {0})
unfolding non_empty max_length add_all err_of
validate_update_input input = elim input.name [
  | none ↦ err_of []
  | some name ↦
      err_of (add_all [] (non_empty (codes "name") name ∷ max_length (codes "name") name 255 ∷ []))
]
