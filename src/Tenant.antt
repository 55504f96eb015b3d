-- ===== src/Tenant.antt =====
-- internal/tenant/model.go: tenants and their API keys.
pub mod Keygen
pub mod Repository
pub mod Keys
pub mod Slug
pub mod Service
use billax.Prelude.{ℕ, Bool, Option, List, Text}
use billax.Calendar.{Time}

pub record Tenant : Type 0 where
  pub id : ℕ
  pub name : Text
  pub slug : Text
  pub email : Text
  pub is_active : Bool
  pub default_provider_name : Text
  pub created_at : Time
  pub updated_at : Time

pub record ApiKey : Type 0 where
  pub id : ℕ
  pub tenant_id : ℕ
  pub key_prefix : Text
  pub scopes : List Text
  pub description : Text
  pub last_used_at : Option Time
  pub expires_at : Option Time
  pub is_active : Bool
  pub created_at : Time

-- A row of `tenant_api_keys`.
pub record KeyRow : Type 0 where
  pub api_key : ApiKey
  pub key_hash : Text

pub record PlaintextKey : Type 0 where
  pub key : Text
  pub api_key : ApiKey

pub record SignupInput : Type 0 where
  pub name : Text
  pub slug : Text
  pub email : Text
  pub password : Text

pub record CreateKeyInput : Type 0 where
  pub description : Text
  pub expires_at : Option Time
