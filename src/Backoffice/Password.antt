-- ===== src/Backoffice/Password.antt =====
-- internal/backoffice/service.go: the rules for passwords, and the temporary password. A password is
-- the list of its bytes where it is indexed; the random bytes are a parameter.
pub mod Temporary
use billax.Prelude.{
  ℕ, zero, suc, ◌+◌, ◌%◌, Bool, false, not, ◌&&◌, ◌||◌, Option, none, some, [], ◌∷◌, ◌++◌, ltb, leb,
  ◌==◌, length, Text, codes, byte_len,
}
use billax.Errors.{err_invalid_input, Error, sentinel, wrap}
use billax.Result.{Result, guard, ◌>>=◌, ◌>>◌}

-- `regexp.MustCompile("[…]").MatchString(s)`: a byte of the class occurs.
abbrev pub any : (ℕ → Bool) → Text → Bool
any p [] = false
any p (c ∷ s) = p c || any p s

abbrev pub is_upper : ℕ → Bool
is_upper c = leb 65 c && leb c 90

abbrev pub is_lower : ℕ → Bool
is_lower c = leb 97 c && leb c 122

abbrev pub is_digit : ℕ → Bool
is_digit c = leb 48 c && leb c 57

abbrev pub specials : Text
specials = codes "!@#$%^&*"

-- `[!@#$%^&*]`
abbrev pub is_special : ℕ → Bool
is_special c = any (λ d. c == d) specials

abbrev rule : Text → Error
rule what = wrap what (sentinel err_invalid_input)

-- `validatePassword`
unfoldable pub validate_password : Text → Result (Unit {0})
validate_password s = do
  guard (not (ltb (byte_len s) 8))
      (rule (codes "password_too_short: password must be at least 8 characters"))
  guard (not (ltb 128 (byte_len s)))
      (rule (codes "password_too_long: password must not exceed 128 characters"))
  guard (any is_upper s) (
      rule
        (codes "password_missing_uppercase: password must contain at least one uppercase letter"))
  guard (any is_lower s) (
      rule
        (codes "password_missing_lowercase: password must contain at least one lowercase letter"))
  guard (any is_digit s)
      (rule (codes "password_missing_digit: password must contain at least one digit"))
  guard (any is_special s) (
      rule (
        codes
          "password_missing_special: password must contain at least one special character (!@#$%^&*)"))

-- `randomIndex`, for what the reading of a random byte gave
abbrev pub random_index : Option ℕ → ℕ → ℕ
random_index none max = 0
random_index (some b) max = b % max

-- `b[i]` and `b[i] = c`
abbrev pub byte_at : Text → ℕ → ℕ
byte_at [] i = 0
byte_at (c ∷ s) zero = c
byte_at (c ∷ s) (suc i) = byte_at s i

abbrev pub set_byte : Text → ℕ → ℕ → Text
set_byte [] i d = []
set_byte (c ∷ s) zero d = d ∷ s
set_byte (c ∷ s) (suc i) d = c ∷ set_byte s i d

-- `b[idx], b[i] = b[i], b[idx]`
unfoldable pub swap : ℕ → ℕ → Text → Text
swap idx i b = set_byte (set_byte b idx (byte_at b i)) i (byte_at b idx)

abbrev pub uppercase : Text
uppercase = codes "ABCDEFGHIJKLMNOPQRSTUVWXYZ"

abbrev pub lowercase : Text
lowercase = codes "abcdefghijklmnopqrstuvwxyz"

abbrev pub digits : Text
digits = codes "0123456789"

abbrev pub all_chars : Text
all_chars = uppercase ++ (lowercase ++ (digits ++ specials))

module _ (random : ℕ → Option ℕ) where
  -- `chars[randomIndex(len(chars))]`, with the number of the reading
  abbrev pub pick : Text → ℕ → ℕ
  pick chars k = byte_at chars (random_index (random k) (length chars))

  -- The loop that fills the rest.
  unfoldable pub filled : ℕ → ℕ → Text
  filled zero k = []
  filled (suc n) k = pick all_chars k ∷ filled n (k + 1)

  -- The loop of swaps; what it copies to `shuffled` is read by nothing.
  unfoldable pub shuffled : ℕ → ℕ → ℕ → Text → Text
  unfolding swap
  shuffled zero i k b = b
  shuffled (suc n) i k b = shuffled n (i + 1) (k + 1) (swap (random_index (random k) 12) i b)

  -- The first four characters, one of each class.
  abbrev pub first_four : Text
  first_four = pick uppercase 0 ∷ pick lowercase 1 ∷ pick digits 2 ∷ pick specials 3 ∷ []

  -- `generateTemporaryPassword`
  unfoldable pub generate_temporary_password : Text
  unfolding filled shuffled
  generate_temporary_password = shuffled 12 0 12 (first_four ++ filled 8 4)
