-- ===== src/Backoffice.antt =====
-- internal/backoffice/model.go: the users of the backoffice.
pub mod Token
pub mod Password
pub mod Repository
pub mod Service
use billax.Prelude.{ℕ, Bool, if◌then◌else◌, Text, codes, text_eq}
use billax.Calendar.{Time}

-- A string type of the source, with two constants.
pub data Role : Type 0 where
  role_admin role_member : Role
  other_role : Text → Role

pub record User : Type 0 where
  pub id : ℕ
  pub tenant_id : ℕ
  pub email : Text
  pub role : Role
  pub name : Text
  pub must_change_password : Bool
  pub is_active : Bool
  pub created_at : Time
  pub updated_at : Time

-- A row of `backoffice_users`.
pub record UserRow : Type 0 where
  pub user : User
  pub password_hash : Text

-- `JWTClaims`
pub record JwtClaims : Type 0 where
  pub user_id : ℕ
  pub tenant_id : ℕ
  pub email : Text
  pub role : Role

abbrev pub role_text : Role → Text
role_text role_admin = codes "admin"
role_text role_member = codes "member"
role_text (other_role t) = t

-- `Role(roleStr)`
unfoldable pub role_of : Text → Role
unfolding text_eq
role_of t =
    if text_eq t (codes "admin")
    then role_admin
    else if text_eq t (codes "member")
    then role_member
    else other_role t
