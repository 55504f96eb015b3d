-- ===== src/Crypto.antt =====
-- internal/crypto/crypto.go. AES, GCM and base64 are parameters; texts are lists of bytes.
use billax.Prelude.{
  ℕ, zero, suc, ◌<◌, ◌≡◌, refl, ap, Bool, true, [], ◌∷◌, ◌++◌, arith, leb, ◌==◌, le→leb, length,
  take, drop, length-append, Text, codes, show_number,
}
use billax.Errors.{Error, opaque}
use billax.Result.{Result, ok, wrap_err, guard, ◌>>=◌, ◌>>◌}

-- A GCM under a key: `NonceSize`, `Seal` and `Open` without additional data.
pub record Aead : Type 0 where
  pub nonce_size : ℕ
  pub seal : Text → Text → Text
  pub open_sealed : Text → Text → Result Text

pub record Cipher : Type 0 where
  -- `aes.NewCipher` and `cipher.NewGCM` of its block
  pub new_cipher : Text → Result (Unit {0})
  pub new_gcm : Text → Result Aead
  -- `rand.Reader`: so many bytes, at the n-th reading
  pub read_random : ℕ → ℕ → Result Text
  pub encode_base64 : Text → Text
  pub decode_base64 : Text → Result Text

abbrev key_error : Text → Text → Error
key_error what key =
    opaque (what ++ (codes " key must be 32 bytes, got " ++ show_number (length key)))

abbrev pub is_key : Text → Bool
is_key key = length key == 32

abbrev gcm_of : Cipher → Text → Result Aead
gcm_of c key = do
  wrap_err (codes "creating cipher") (c.new_cipher key)
  wrap_err (codes "creating GCM") (c.new_gcm key)

-- `Encrypt`, with the number of the reading of random bytes
unfoldable pub encrypt : Cipher → ℕ → Text → Text → Result Text
encrypt c n plaintext key = do
  guard (is_key key) (key_error (codes "encryption") key)
  gcm ← gcm_of c key
  nonce ← wrap_err (codes "generating nonce") (c.read_random n gcm.nonce_size)
  ok (c.encode_base64 (nonce ++ gcm.seal nonce plaintext))

abbrev too_short : ℕ → ℕ → Error
too_short size got = opaque (
    codes "ciphertext too short (minimum "
    ++ (show_number size ++ (codes " bytes, got " ++ (show_number got ++ codes ")"))))

-- `Decrypt`
unfoldable pub decrypt : Cipher → Text → Text → Result Text
decrypt c encoded key = do
  guard (is_key key) (key_error (codes "decryption") key)
  data_bytes ← wrap_err (codes "decoding base64") (c.decode_base64 encoded)
  gcm ← gcm_of c key
  guard (leb gcm.nonce_size (length data_bytes)) (too_short gcm.nonce_size (length data_bytes))
  wrap_err (codes "decryption failed")
      (gcm.open_sealed (take gcm.nonce_size data_bytes) (drop gcm.nonce_size data_bytes))

-- The bytes before and behind a cut.
take-append : (n : ℕ) (xs ys : Text) → length xs ≡ n → take n (xs ++ ys) ≡ xs
take-append zero [] ys h = refl
take-append zero (x ∷ xs) ys h = absurd (omega (arith, h))
take-append (suc n) [] ys h = absurd (omega (arith, h))
take-append (suc n) (x ∷ xs) ys h = ap (λ zs. x ∷ zs) (take-append n xs ys (omega (arith, h)))

drop-append : (n : ℕ) (xs ys : Text) → length xs ≡ n → drop n (xs ++ ys) ≡ ys
drop-append zero [] ys h = refl
drop-append zero (x ∷ xs) ys h = absurd (omega (arith, h))
drop-append (suc n) [] ys h = absurd (omega (arith, h))
drop-append (suc n) (x ∷ xs) ys h = drop-append n xs ys (omega (arith, h))

long_enough : (n : ℕ) (xs ys : Text) → length xs ≡ n → leb n (length (xs ++ ys)) ≡ true
long_enough n xs ys h = le→leb n (length (xs ++ ys)) (omega (arith, length-append xs ys, h))

-- What is relied on of the ciphers: a 32-byte key is accepted, the reader gives as many bytes as it
-- is asked for, what was sealed is opened under the same nonce, nonces are not empty, base64 makes
-- something of something and is decoded.
pub record IsCipher (c : Cipher) : Type 0 where
  pub aead : Text → Aead
  pub accepts : (key : Text) → is_key key ≡ true → c.new_cipher key ≡ ok tt
  pub makes_gcm : (key : Text) → is_key key ≡ true → c.new_gcm key ≡ ok (aead key)
  pub fills :
      (n size : ℕ) → (nonce : Text) × (c.read_random n size ≡ ok nonce) × (length nonce ≡ size)
  pub opens :
      (key nonce plain : Text)
      → (aead key).open_sealed nonce ((aead key).seal nonce plain) ≡ ok plain
  pub has_nonce : (key : Text) → 0 < (aead key).nonce_size
  pub visible :
      (data_bytes : Text) → 0 < length data_bytes → 0 < length (c.encode_base64 data_bytes)
  pub decodes : (data_bytes : Text) → c.decode_base64 (c.encode_base64 data_bytes) ≡ ok data_bytes

pub encrypt_lem :
    (c : Cipher) (laws : IsCipher c) (n : ℕ) (plaintext key : Text)
    → is_key key ≡ true
    → (encoded : Text) × (encrypt c n plaintext key ≡ ok encoded)
      × (decrypt c encoded key ≡ ok plaintext)
      × (0 < length encoded)
unfolding encrypt decrypt
encrypt_lem c laws n plaintext key h =
    let gcm = laws.aead key in
    let (nonce, drawn, size) = laws.fills n gcm.nonce_size in
    let cut = gcm.seal nonce plaintext in
    (
      c.encode_base64 (nonce ++ cut),
      rw (h, laws.accepts key h, laws.makes_gcm key h, drawn) refl,
      rw
          (
            h,
            laws.decodes (nonce ++ cut),
            laws.accepts key h,
            laws.makes_gcm key h,
            long_enough gcm.nonce_size nonce cut size,
            take-append gcm.nonce_size nonce cut size,
            drop-append gcm.nonce_size nonce cut size,
            laws.opens key nonce plaintext,
          )
          refl,
      laws.visible (nonce ++ cut)
          (omega (arith, length-append nonce cut, size, laws.has_nonce key)),
    )

-- With a key of 32 bytes, what is encrypted is decrypted again.
pub decrypt-encrypt :
    (c : Cipher) (laws : IsCipher c) (n : ℕ) (plaintext key : Text)
    → is_key key ≡ true
    → (encoded : Text) × (encrypt c n plaintext key ≡ ok encoded)
      × (decrypt c encoded key ≡ ok plaintext)
decrypt-encrypt c laws n plaintext key h =
    let (encoded, made, opened, visible) = encrypt_lem c laws n plaintext key h in
    (encoded, made, opened)
