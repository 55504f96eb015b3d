-- ===== src/Subscription/Tags.antt =====
-- `validateTags` and `normalizeTags` of internal/subscription/service.go. The set `seen` of the loop
-- holds the same strings as `normalized`, so one list stands for both.
pub mod Laws
use billax.Prelude.{
  ℕ, suc, Bool, not, ◌&&◌, Option, none, some, List, [], ◌∷◌, ◌++◌, leb, if◌then◌else◌, length,
  Text, codes, text_eq, byte_len, trim_space, Unicode, fold_case, show_number,
}
use billax.Errors.{FieldError}
use billax.Result.{Result}
use billax.Validation.{add_all, err_of, field_error, contains}

abbrev pub max_tag_count : ℕ
max_tag_count = 20

abbrev pub max_tag_length : ℕ
max_tag_length = 50

-- The checks of `validateTags` on the tags from number i on.
unfoldable pub tag_checks : ℕ → List Text → List (Option FieldError)
tag_checks i [] = []
tag_checks i (tag ∷ rest) =
    (if leb (byte_len (trim_space tag)) max_tag_length
      then none
      else some (
          field_error (codes "tags[" ++ (show_number i ++ codes "]"))
            (codes "must be at most " ++ (show_number max_tag_length ++ codes " characters"))))
    ∷ tag_checks (suc i) rest

-- `validateTags`
unfoldable pub validate_tags : List Text → Result (Unit {0})
unfolding tag_checks
validate_tags tags = err_of (
    add_all [] (
      (if leb (length tags) max_tag_count
        then none
        else some (
            field_error (codes "tags")
              (codes "must not exceed " ++ (show_number max_tag_count ++ codes " tags"))))
      ∷ tag_checks 0 tags))

-- The slice that the loop leaves: nil, here `none`, if nothing was appended to it.
abbrev pub slice_of : List Text → Option (List Text)
slice_of [] = none
slice_of (t ∷ ts) = some (t ∷ ts)

module _ (u : Unicode) where
  -- The tag is new: not blank, and not seen before.
  abbrev is_new : List Text → Text → Bool
  is_new seen lower = not (text_eq lower []) && not (contains seen lower)

  unfoldable pub normalize_from : List Text → List Text → List Text
  normalize_from seen [] = seen
  normalize_from seen (tag ∷ rest) =
      let lower = fold_case u tag in
      normalize_from (if is_new seen lower then seen ++ lower ∷ [] else seen) rest

  -- `normalizeTags`
  unfoldable pub normalize_tags : List Text → Option (List Text)
  unfolding normalize_from
  normalize_tags [] = some []
  normalize_tags (tag ∷ rest) = slice_of (normalize_from [] (tag ∷ rest))
