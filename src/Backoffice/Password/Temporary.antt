-- ===== src/Backoffice/Password/Temporary.antt =====
-- internal/backoffice/service.go: a temporary password obeys the rules for passwords.
use billax.Prelude.{
  ℕ, zero, suc, ◌+◌, ◌≤◌, ◌<◌, ◌≡◌, refl, ap, ◌∙◌, inl, inr, Bool, true, false, Option, none, some,
  [], ◌∷◌, ◌++◌, arith, Bool-cases, ltb, ◌==◌, ==_iff, length, all, Text, byte_len,
}
use billax.Result.{ok}
use billax.Backoffice.Password.{
  any, is_upper, is_lower, is_digit, is_special, specials, validate_password, random_index, byte_at,
  set_byte, swap, uppercase, lowercase, digits, all_chars, pick, filled, shuffled, first_four,
  generate_temporary_password,
}

abbrev is_ascii : ℕ → Bool
is_ascii c = ltb c 128

byte_len-ascii : (s : Text) → all is_ascii s ≡ true → byte_len s ≡ length s
byte_len-ascii [] h = refl
byte_len-ascii (c ∷ s) h = ground (arith, h, byte_len-ascii s)

length-set_byte : (s : Text) (i d : ℕ) → length (set_byte s i d) ≡ length s
length-set_byte [] i d = refl
length-set_byte (c ∷ s) zero d = refl
length-set_byte (c ∷ s) (suc i) d = omega (arith, length-set_byte s i d)

byte_at-set_byte : (s : Text) (i d : ℕ) → i < length s → byte_at (set_byte s i d) i ≡ d
byte_at-set_byte [] i d h = absurd (omega (arith, h))
byte_at-set_byte (c ∷ s) zero d h = refl
byte_at-set_byte (c ∷ s) (suc i) d h = byte_at-set_byte s i d (omega (arith, h))

byte_at-set_byte_other :
    (s : Text) (i d j : ℕ) → (i == j) ≡ false → byte_at (set_byte s i d) j ≡ byte_at s j
byte_at-set_byte_other [] i d j h = refl
byte_at-set_byte_other (c ∷ s) zero d zero h = absurd (ground (arith, h))
byte_at-set_byte_other (c ∷ s) zero d (suc j) h = refl
byte_at-set_byte_other (c ∷ s) (suc i) d zero h = refl
byte_at-set_byte_other (c ∷ s) (suc i) d (suc j) h =
    byte_at-set_byte_other s i d j (ground (arith, h))

module _ (p : ℕ → Bool) where
  all-byte_at : (s : Text) (i : ℕ) → all p s ≡ true → i < length s → p (byte_at s i) ≡ true
  all-byte_at [] i h lt = absurd (omega (arith, lt))
  all-byte_at (c ∷ s) zero h lt = ground (arith, h)
  all-byte_at (c ∷ s) (suc i) h lt = all-byte_at s i (ground (arith, h)) (omega (arith, lt))

  all-set_byte : (s : Text) (i d : ℕ) → all p s ≡ true → p d ≡ true → all p (set_byte s i d) ≡ true
  all-set_byte [] i d h k = refl
  all-set_byte (c ∷ s) zero d h k = ground (arith, h, k)
  all-set_byte (c ∷ s) (suc i) d h k = ground (arith, h, all-set_byte s i d)

  any_of-byte_at : (s : Text) (i : ℕ) → i < length s → p (byte_at s i) ≡ true → any p s ≡ true
  any_of-byte_at [] i lt h = absurd (omega (arith, lt))
  any_of-byte_at (c ∷ s) zero lt h = rw h refl
  any_of-byte_at (c ∷ s) (suc i) lt h = ground (arith, any_of-byte_at s i (omega (arith, lt)) h)

  byte_at-any : (s : Text) → any p s ≡ true → (i : ℕ) × (i < length s) × (p (byte_at s i) ≡ true)
  byte_at-any [] h = absurd (cc h)
  byte_at-any (c ∷ s) h = elim (Bool-cases (p c)) [
    | inl hit ↦ (0, omega arith, hit)
    | inr miss ↦
        let (i, lt, there) = byte_at-any s (ground (arith, miss, h)) in
        (suc i, omega (arith, lt), there)
  ]

-- The bytes after a swap of two places.
module _ (a b : ℕ) (s : Text) (in_a : a < length s) (in_b : b < length s) where
  length-swap : length (swap a b s) ≡ length s
  unfolding swap
  length-swap =
      length-set_byte (set_byte s a (byte_at s b)) b (byte_at s a)
      ∙ length-set_byte s a (byte_at s b)

  swap_second : byte_at (swap a b s) b ≡ byte_at s a
  unfolding swap
  swap_second =
      byte_at-set_byte (set_byte s a (byte_at s b)) b (byte_at s a)
        (omega (arith, in_b, length-set_byte s a (byte_at s b)))

  swap_first : (b == a) ≡ false → byte_at (swap a b s) a ≡ byte_at s b
  unfolding swap
  swap_first h =
      byte_at-set_byte_other (set_byte s a (byte_at s b)) b (byte_at s a) a h
      ∙ byte_at-set_byte s a (byte_at s b) in_a

  swap_other : (k : ℕ) → (a == k) ≡ false → (b == k) ≡ false → byte_at (swap a b s) k ≡ byte_at s k
  unfolding swap
  swap_other k h h' =
      byte_at-set_byte_other (set_byte s a (byte_at s b)) b (byte_at s a) k h'
      ∙ byte_at-set_byte_other s a (byte_at s b) k h

  -- Every byte is still there.
  moved : (k : ℕ) → k < length s → (j : ℕ) × (j < length s) × (byte_at (swap a b s) j ≡ byte_at s k)
  moved k lt = elim (Bool-cases (a == k)) [
    | inl here ↦ let e : a ≡ k = (==_iff a k).0 here in (b, in_b, swap_second ∙ ap (byte_at s) e)
    | inr other ↦ elim (Bool-cases (b == k)) [
      | inl there ↦
          let e : b ≡ k = (==_iff b k).0 there in
          (a, in_a, swap_first (ground (arith, other, there)) ∙ ap (byte_at s) e)
      | inr apart ↦ (k, lt, swap_other k other apart)
    ]
  ]

  any-swap : (p : ℕ → Bool) → any p s ≡ true → any p (swap a b s) ≡ true
  any-swap p h =
      let (k, lt, hit) = byte_at-any p s h in
      let (j, lt', same) = moved k lt in
      any_of-byte_at p (swap a b s) j (omega (arith, lt', length-swap)) (ap p same ∙ hit)

  all-swap : (p : ℕ → Bool) → all p s ≡ true → all p (swap a b s) ≡ true
  unfolding swap
  all-swap p h =
      all-set_byte p (set_byte s a (byte_at s b)) b (byte_at s a)
        (all-set_byte p s a (byte_at s b) h (all-byte_at p s b h in_b)) (all-byte_at p s a h in_a)

random_index-lt : (o : Option ℕ) (max : ℕ) → 0 < max → random_index o max < max
random_index-lt none max h = h
random_index-lt (some b) max h = omega (arith, h)

module _ (random : ℕ → Option ℕ) where
  -- A place that is drawn is one of the twelve.
  drawn-lt : (k : ℕ) (s : Text) → length s ≡ 12 → random_index (random k) 12 < length s
  drawn-lt k s twelve = omega (arith, twelve, random_index-lt (random k) 12 (omega arith))

  abbrev swapped : ℕ → ℕ → Text → Text
  swapped i k s = swap (random_index (random k) 12) i s

  length-shuffled :
      (n i k : ℕ) (s : Text) → length s ≡ 12 → i + n ≤ 12 → length (shuffled random n i k s) ≡ 12
  unfolding shuffled
  length-shuffled zero i k s twelve fits = twelve
  length-shuffled (suc n) i k s twelve fits =
      length-shuffled n (i + 1) (k + 1) (swapped i k s)
        (length-swap (random_index (random k) 12) i s (drawn-lt k s twelve)
            (omega (arith, twelve, fits))
          ∙ twelve)
        (omega (arith, fits))

  -- What some byte has, or every byte, it has after the swaps.
  module _ (p : ℕ → Bool) where
    any-shuffled :
        (n i k : ℕ) (s : Text)
        → length s ≡ 12
        → i + n ≤ 12
        → any p s ≡ true
        → any p (shuffled random n i k s) ≡ true
    unfolding shuffled
    any-shuffled zero i k s twelve fits h = h
    any-shuffled (suc n) i k s twelve fits h =
        let drawn = drawn-lt k s twelve in
        let place : i < length s = omega (arith, twelve, fits) in
        any-shuffled n (i + 1) (k + 1) (swapped i k s)
          (length-swap (random_index (random k) 12) i s drawn place ∙ twelve) (omega (arith, fits))
          (any-swap (random_index (random k) 12) i s drawn place p h)

    all-shuffled :
        (n i k : ℕ) (s : Text)
        → length s ≡ 12
        → i + n ≤ 12
        → all p s ≡ true
        → all p (shuffled random n i k s) ≡ true
    unfolding shuffled
    all-shuffled zero i k s twelve fits h = h
    all-shuffled (suc n) i k s twelve fits h =
        let drawn = drawn-lt k s twelve in
        let place : i < length s = omega (arith, twelve, fits) in
        all-shuffled n (i + 1) (k + 1) (swapped i k s)
          (length-swap (random_index (random k) 12) i s drawn place ∙ twelve) (omega (arith, fits))
          (all-swap (random_index (random k) 12) i s drawn place p h)

    -- A character that is drawn from a set has what the set has.
    pick-all :
        (chars : Text) (k : ℕ)
        → all p chars ≡ true
        → 0 < length chars
        → p (pick random chars k) ≡ true
    pick-all chars k h some_char =
        all-byte_at p chars (random_index (random k) (length chars)) h
          (random_index-lt (random k) (length chars) some_char)

    all-filled : (n k : ℕ) → all p all_chars ≡ true → all p (filled random n k) ≡ true
    unfolding filled
    all-filled zero k h = refl
    all-filled (suc n) k h = rw (pick-all all_chars k h (omega arith)) (all-filled n (k + 1) h)

  length-filled : (n k : ℕ) → length (filled random n k) ≡ n
  unfolding filled
  length-filled zero k = refl
  length-filled (suc n) k = omega (arith, length-filled n (k + 1))

  -- The password before the swaps.
  abbrev unshuffled : Text
  unshuffled = first_four random ++ filled random 8 4

  length-unshuffled : length unshuffled ≡ 12
  length-unshuffled = omega (arith, length-filled 8 4)

  is_ascii-unshuffled : all is_ascii unshuffled ≡ true
  is_ascii-unshuffled =
      rw
        (
          pick-all is_ascii uppercase 0 refl (omega arith),
          pick-all is_ascii lowercase 1 refl (omega arith),
          pick-all is_ascii digits 2 refl (omega arith),
          pick-all is_ascii specials 3 refl (omega arith),
        )
        (all-filled is_ascii 8 4 refl)

  has_upper : any is_upper unshuffled ≡ true
  has_upper = rw (pick-all is_upper uppercase 0 refl (omega arith)) refl

  has_lower : any is_lower unshuffled ≡ true
  has_lower =
      any_of-byte_at is_lower unshuffled 1 (omega arith)
        (pick-all is_lower lowercase 1 refl (omega arith))

  has_digit : any is_digit unshuffled ≡ true
  has_digit =
      any_of-byte_at is_digit unshuffled 2 (omega arith)
        (pick-all is_digit digits 2 refl (omega arith))

  has_special : any is_special unshuffled ≡ true
  has_special =
      any_of-byte_at is_special unshuffled 3 (omega arith)
        (pick-all is_special specials 3 refl (omega arith))

  length-generate_temporary_password : length (generate_temporary_password random) ≡ 12
  unfolding generate_temporary_password
  length-generate_temporary_password =
      length-shuffled 12 0 12 unshuffled length-unshuffled (omega arith)

  byte_len-generate_temporary_password : byte_len (generate_temporary_password random) ≡ 12
  unfolding generate_temporary_password
  byte_len-generate_temporary_password =
      byte_len-ascii (generate_temporary_password random) (
        all-shuffled is_ascii 12 0 12 unshuffled length-unshuffled (omega arith)
          is_ascii-unshuffled)
      ∙ length-generate_temporary_password

  has_class :
      (p : ℕ → Bool) → any p unshuffled ≡ true → any p (generate_temporary_password random) ≡ true
  unfolding generate_temporary_password
  has_class p h = any-shuffled p 12 0 12 unshuffled length-unshuffled (omega arith) h

-- Whatever the random bytes are, and where they cannot be read, a temporary password has twelve
-- bytes and passes the rules for passwords.
pub generate_temporary_password_lem :
    (random : ℕ → Option ℕ)
    → (byte_len (generate_temporary_password random) ≡ 12)
      × (validate_password (generate_temporary_password random) ≡ ok tt)
unfolding validate_password
generate_temporary_password_lem random = (
  byte_len-generate_temporary_password random,
  rw
      (
        byte_len-generate_temporary_password random,
        has_class random is_upper (has_upper random),
        has_class random is_lower (has_lower random),
        has_class random is_digit (has_digit random),
        has_class random is_special (has_special random),
      )
      refl,
)
