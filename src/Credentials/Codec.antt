-- ===== src/Credentials/Codec.antt =====
-- internal/providercredentials/repository.go: how a config becomes the text of its column, and back.
use billax.Prelude.{
  ℕ, ◌<◌, ◌≡◌, refl, inl, inr, false, [], ◌∷◌, ◌++◌, arith, ◌==◌, if◌then◌else◌, Bool-cases, length,
  Text, codes, text_eq,
}
use billax.Errors.{Error, opaque}
use billax.Result.{Result, ok, err, wrap_err, ◌>>=◌}
use billax.Crypto.{is_key, encrypt, decrypt, IsCipher, encrypt_lem}
use billax.Provider.{Config, config_value}
use billax.Credentials.{Vault}

abbrev pub enc_field : Text
enc_field = codes "_enc"

abbrev pub wrapper_of : Text → Config
wrapper_of encrypted = (enc_field, encrypted) ∷ []

module _ (v : Vault) where
  abbrev no_key : Text → Error
  no_key what =
      opaque (
        what
        ++ codes ": credentials are encrypted but CREDENTIALS_ENCRYPTION_KEY is not configured")

  -- The JSON of a config behind the marker, where there is one.
  unfoldable pub unsealed : Text → Text → Text → Result Text
  unfolding decrypt
  unsealed what raw [] = ok raw
  unsealed what raw (c ∷ encrypted) =
      if length v.enc_key == 0
      then err (no_key what)
      else wrap_err (what ++ codes ": decrypting config")
          (decrypt v.cipher (c ∷ encrypted) v.enc_key)

  -- `wrapper["_enc"]`, "" where the text is no JSON map
  unfoldable pub marker : Result Config → Text
  unfolding config_value
  marker (err e) = []
  marker (ok wrapper) = config_value wrapper enc_field

  abbrev decode : Text → Text → Result Config
  decode what json = wrap_err what (v.unmarshal json)

  -- From the column to the config: the same lines stand in three operations.
  unfoldable pub read_config : Text → Text → Text → Result Config
  unfolding unsealed marker
  read_config what decoding raw =
      unsealed what raw (marker (v.unmarshal raw)) >>= λ json. decode (what ++ decoding) json

  abbrev ignored : Result Text → Text
  ignored (ok t) = t
  ignored (err e) = []

  abbrev pub wrapped_json : Result Text → Result Text
  wrapped_json r = r >>= λ encrypted. ok (ignored (v.marshal (wrapper_of encrypted)))

  -- What `Set` stores: the JSON of the config, encrypted where the key has 32 bytes. The error of
  -- marshaling the wrapper is dropped.
  unfoldable pub sealed : ℕ → Text → Result Text
  unfolding encrypt
  sealed n plain =
      let encrypted =
        wrap_err (codes "set credentials: encrypting config")
          (encrypt v.cipher n plain v.enc_key) in
      if is_key v.enc_key then wrapped_json encrypted else ok plain

  -- What is relied on for one config: the JSON of it and of its wrapper are read back.
  pub record IsStored (config : Config) : Type 0 where
    pub json : Text
    pub marshals : v.marshal config ≡ ok json
    pub unmarshals : v.unmarshal json ≡ ok config
    pub wraps :
        (encrypted : Text)
        → (t : Text) × (v.marshal (wrapper_of encrypted) ≡ ok t)
          × (v.unmarshal t ≡ ok (wrapper_of encrypted))

  unsealed_open :
      (what raw encrypted plain : Text)
      → 0 < length encrypted
      → (length v.enc_key == 0) ≡ false
      → decrypt v.cipher encrypted v.enc_key ≡ ok plain
      → unsealed what raw encrypted ≡ ok plain
  unfolding unsealed
  unsealed_open what raw [] plain some_text has_key h = absurd (omega (arith, some_text))
  unsealed_open what raw (c ∷ t) plain some_text has_key h = rw (has_key, h) refl

  marker-wrapper_of : (encrypted : Text) → marker (ok (wrapper_of encrypted)) ≡ encrypted
  unfolding marker config_value text_eq
  marker-wrapper_of encrypted = refl

  marker_plain : (config : Config) → config_value config enc_field ≡ [] → marker (ok config) ≡ []
  unfolding marker
  marker_plain config h = h

  -- What is stored for a config is read back, whatever the key, if the config has no value of its own
  -- for the marker.
  pub read_config-sealed :
      (laws : IsCipher v.cipher) (n : ℕ) (what decoding : Text) (config : Config)
      (s : IsStored config)
      → config_value config enc_field ≡ []
      → (stored : Text) × (sealed n s.json ≡ ok stored)
        × (read_config what decoding stored ≡ ok config)
  unfolding sealed read_config
  read_config-sealed laws n what decoding config s unmarked = elim (Bool-cases (is_key v.enc_key)) [
    | inl keyed ↦
        let (encoded, made, opened, visible) = encrypt_lem v.cipher laws n s.json v.enc_key keyed in
        let (t, wrote, read) = s.wraps encoded in
        let plain = unsealed_open what t encoded s.json visible (ground (arith, keyed)) opened in
        (
          t,
          rw (made, keyed, wrote) refl,
          rw (read, marker-wrapper_of encoded, plain, s.unmarshals) refl,
        )
    | inr plain ↦
        (s.json, rw plain refl, rw (s.unmarshals, marker_plain config unmarked, s.unmarshals) refl)
  ]
