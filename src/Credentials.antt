-- ===== src/Credentials.antt =====
-- internal/providercredentials: the rows of `provider_credentials` and what the package takes from
-- outside.
pub mod Codec
pub mod Repository
pub mod Store
pub mod Refines
pub mod Service
use billax.Prelude.{ℕ, Text}
use billax.Calendar.{Time}
use billax.Result.{Result}
use billax.Provider.{Config}
use billax.Crypto.{Cipher}

pub record CredentialRow : Type 0 where
  pub tenant_id : ℕ
  pub provider_name : Text
  pub config : Text
  pub webhook_secret : Text
  pub created_at : Time
  pub updated_at : Time

-- `ProviderConfig`
pub record ProviderConfig : Type 0 where
  pub provider_name : Text
  pub config : Config
  pub created_at : Time
  pub updated_at : Time

-- `encoding/json` at `map[string]string`, the ciphers and `encKey`. The column is JSONB: what is read
-- from it decodes as what was written.
pub record Vault : Type 0 where
  pub marshal : Config → Result Text
  pub unmarshal : Text → Result Config
  pub cipher : Cipher
  pub enc_key : Text
