-- ===== src/Tenant/Keygen.antt =====
-- internal/tenant/keygen.go. The random bytes, the base64 alphabets and argon2id are parameters.
use billax.Prelude.{
  ℕ, Bool, true, false, ◌&&◌, ◌||◌, [], ◌∷◌, ◌++◌, ltb, ◌==◌, if◌then◌else◌, take, Text, codes,
  text_eq, byte_len,
}
use billax.Result.{Result, ok, wrap_err, ◌>>=◌}

pub record KeySource : Type 0 where
  -- `rand.Read`: so many bytes, at the n-th reading
  pub read_random : ℕ → ℕ → Result Text
  -- `base64.URLEncoding`
  pub encode_url : Text → Text
  -- argon2id of a text and a salt with the fixed parameters, in base64
  pub hash : Text → Text → Text

-- plaintext, prefix and hash
pub record GeneratedKey : Type 0 where
  pub plaintext : Text
  pub prefix : Text
  pub hashed : Text

abbrev pub test_key_prefix : Text
test_key_prefix = codes "payd_test_"

abbrev pub live_key_prefix : Text
live_key_prefix = codes "payd_live_"

abbrev pub prefix_of : Text → Text
prefix_of env = if text_eq env (codes "production") then live_key_prefix else test_key_prefix

abbrev pub key_of : KeySource → Text → GeneratedKey
key_of s plaintext = record {
  plaintext = plaintext;
  prefix = take 12 plaintext;
  hashed = s.hash plaintext (take 12 plaintext);
}

-- `GenerateAPIKey`, with the number of the reading of random bytes
unfoldable pub generate_api_key : KeySource → ℕ → Text → Result GeneratedKey
unfolding text_eq
generate_api_key s n env = do
  random_bytes ← wrap_err (codes "generating random bytes") (s.read_random n 32)
  ok (key_of s (prefix_of env ++ s.encode_url random_bytes))

-- Go's `key[:len(p)] == p` for a key that is longer than p
unfoldable pub has_prefix : Text → Text → Bool
has_prefix [] s = true
has_prefix (c ∷ p) [] = false
has_prefix (c ∷ p) (d ∷ s) = c == d && has_prefix p s

-- `ValidateKeyFormat`
unfoldable pub validate_key_format : Text → Bool
unfolding has_prefix
validate_key_format key =
    if ltb (byte_len key) 20
    then false
    else has_prefix test_key_prefix key || has_prefix live_key_prefix key
