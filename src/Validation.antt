-- ===== src/Validation.antt =====
-- internal/validation/validators.go: the accumulating `ValidationError` and the field validators. A
-- validator returns `none` where the source returns a nil `*FieldError`.
pub mod Laws
use billax.Prelude.{
  ℕ, zero, suc, min, Bool, true, false, not, ◌&&◌, ◌||◌, Option, none, some, List, [], ◌∷◌, ◌++◌,
  leb, ◌==◌, if◌then◌else◌, ℤ, pos, negsuc, ltb_ℤ, leb_ℤ, Text, codes, text_eq, byte_len, is_space,
  trim_left, trim_space, Unicode, to_lower, to_upper, show_number, quote,
}
use billax.Errors.{FieldError, validation}
use billax.Result.{Result, ok, err}

-- `v.Add(fe)`
unfoldable pub add : List FieldError → Option FieldError → List FieldError
add fields none = fields
add fields (some fe) = fields ++ fe ∷ []

-- A row of `v.Add(…)` calls.
unfoldable pub add_all : List FieldError → List (Option FieldError) → List FieldError
unfolding add
add_all fields [] = fields
add_all fields (fe ∷ rest) = add_all (add fields fe) rest

-- `v.Err()`, also `ErrValidation(v)`
unfoldable pub err_of : List FieldError → Result (Unit {0})
err_of [] = ok tt
err_of (f ∷ fs) = err (validation (f ∷ fs))

abbrev pub field_error : Text → Text → FieldError
field_error field message = record { field = field; message = message }

abbrev fail_unless : Bool → Text → Text → Option FieldError
fail_unless valid field message = if valid then none else some (field_error field message)

unfoldable pub non_empty : Text → Text → Option FieldError
unfolding text_eq trim_space trim_left is_space
non_empty field value =
    fail_unless (not (text_eq (trim_space value) [])) field (codes "must not be empty")

unfoldable pub max_length : Text → Text → ℕ → Option FieldError
unfolding show_number
max_length field value max =
    fail_unless (leb (byte_len value) max) field
      (codes "must be at most " ++ (show_number max ++ codes " characters"))

-- `%d` of an `int64`
unfoldable pub show_int : ℤ → Text
unfolding show_number
show_int (pos n) = show_number n
show_int (negsuc n) = b'-' ∷ show_number (suc n)

unfoldable pub min_int : Text → ℤ → ℤ → Option FieldError
unfolding show_int
min_int field value min =
    fail_unless (leb_ℤ min value) field (codes "must be at least " ++ show_int min)

unfoldable pub max_int : Text → ℤ → ℤ → Option FieldError
unfolding show_int
max_int field value max =
    fail_unless (leb_ℤ value max) field (codes "must be at most " ++ show_int max)

unfoldable pub positive_int : Text → ℤ → Option FieldError
positive_int field value =
    fail_unless (ltb_ℤ (pos 0) value) field (codes "must be a positive integer")

-- Membership in a list of strings, as a loop with `==` finds it.
unfoldable pub contains : List Text → Text → Bool
unfolding text_eq
contains [] value = false
contains (a ∷ allowed) value = text_eq value a || contains allowed value

abbrev pub currencies : List Text
currencies =
    codes "ARS"
    ∷ codes "USD"
    ∷ codes "BRL"
    ∷ codes "CLP"
    ∷ codes "COP"
    ∷ codes "MXN"
    ∷ codes "UYU"
    ∷ codes "PEN"
    ∷ codes "EUR"
    ∷ codes "GBP"
    ∷ []

unfoldable pub iso_currency : Unicode → Text → Text → Option FieldError
unfolding contains to_upper quote
iso_currency u field value =
    fail_unless (contains currencies (to_upper u value)) field
      (codes "must be a supported ISO 4217 currency code (got " ++ (quote u value ++ codes ")"))

-- strings.Join(parts, ", ")
unfoldable pub join : List Text → Text
join [] = []
join (a ∷ []) = a
join (a ∷ b ∷ rest) = a ++ (codes ", " ++ join (b ∷ rest))

unfoldable pub valid_enum : Text → Text → List Text → Option FieldError
unfolding contains join
valid_enum field value allowed =
    fail_unless (contains allowed value) field (codes "must be one of: " ++ join allowed)

-- `[0-9a-f]`
abbrev is_hex : ℕ → Bool
is_hex c = leb 48 c && leb c 57 || leb 97 c && leb c 102

-- `[0-9a-f]{n}`, then what the continuation accepts.
hex_run : ℕ → (Text → Bool) → Text → Bool
hex_run zero rest s = rest s
hex_run (suc n) rest [] = false
hex_run (suc n) rest (c ∷ s) = is_hex c && hex_run n rest s

hyphen : (Text → Bool) → Text → Bool
hyphen rest [] = false
hyphen rest (c ∷ s) = c == b'-' && rest s

at_end : Text → Bool
at_end [] = true
at_end (c ∷ s) = false

-- `uuidPattern`
pub uuid_pattern : Text → Bool
unfolding hex_run hyphen at_end
uuid_pattern =
    hex_run 8
      (hyphen (hex_run 4 (hyphen (hex_run 4 (hyphen (hex_run 4 (hyphen (hex_run 12 at_end))))))))

pub valid_uuid : Unicode → Text → Text → Option FieldError
unfolding uuid_pattern to_lower
valid_uuid u field value =
    fail_unless (uuid_pattern (to_lower u value)) field (codes "must be a valid UUID")
