-- ===== src/Backoffice/Service.antt =====
-- internal/backoffice/service.go. bcrypt and the random bytes are parameters. Log lines are left out.
pub mod Sessions
pub mod Passwords
use billax.Prelude.{
  ℕ, Bool, true, false, not, Option, List, [], ◌∷◌, if◌then◌else◌, Text, codes, text_eq,
}
use billax.Errors.{Error, wrap, opaque}
use billax.Result.{Result, ok, err, wrap_err}
use billax.Calendar.{Time}
use billax.Backoffice.{Role, role_admin, role_member, other_role, User, UserRow}
use billax.Backoffice.Token.{Jwt, generate_token}
use billax.Backoffice.Password.{validate_password, generate_temporary_password}
use billax.Backoffice.Repository
use billax.Backoffice.Repository.{
  is_nil, is_given, invalid, missing_tenant, create, get_by_email, get_by_id,
  get_password_hash_by_id, list, update_password, update_must_change_password, update_name,
  deactivate,
}
use billax.World.{Act, pure, lift, ◌>>=◌, ◌>>◌, check, wrapped, new_uuid}

pub record BackofficeService : Type 0 where
  -- `bcrypt.GenerateFromPassword` at the default cost, and `bcrypt.CompareHashAndPassword`
  pub hash_password : Text → Result Text
  pub matches : Text → Text → Bool
  -- the k-th byte of the n-th row of readings, if it can be read
  pub random_byte : ℕ → ℕ → Option ℕ
  pub jwt : Jwt
  pub jwt_secret : Text
  -- seconds
  pub jwt_ttl : ℕ

abbrev must_change : Error
must_change =
    opaque
      (codes "login: must_change_password: user must change password before accessing backoffice")

module _ (s : BackofficeService) where
  -- What `Login` does with the row it finds.
  unfoldable pub admit : Text → UserRow → Time → Result (Text × User)
  unfolding generate_token
  admit password r now =
      if not r.user.is_active
      then err (invalid (codes "login: user is inactive"))
      else if not (s.matches r.password_hash password)
      then err (invalid (codes "login"))
      else if r.user.must_change_password
      then err must_change
      else elim (generate_token s.jwt r.user s.jwt_secret s.jwt_ttl now) [
        | err e ↦ err (wrap (codes "login") e)
        | ok token ↦ ok (token, r.user)
      ]

  -- Every error of `GetByEmail` is answered as `ErrInvalidInput`.
  abbrev pub hidden : Act UserRow → Act UserRow
  hidden m w =
      let (r, w') = m w in (elim r [ ok row ↦ ok row | err e ↦ err (invalid (codes "login")) ], w')

  -- `Login`
  unfoldable pub login : ℕ → Text → Text → Act (Text × User)
  unfolding get_by_email admit
  login tenant email password w =
      (do
        check (not (is_nil tenant)) (missing_tenant (codes "login"))
        check (is_given email) (invalid (codes "login: email cannot be empty"))
        check (is_given password) (invalid (codes "login: password cannot be empty"))
        r ← hidden (get_by_email tenant email)
        lift (admit password r w.now))
        w

  abbrev is_role : Role → Bool
  is_role role_admin = true
  is_role role_member = true
  is_role (other_role t) = false

  -- The password to hash, and whether it is temporary.
  unfoldable pub chosen : ℕ → Text → Result (Text × Bool)
  unfolding generate_temporary_password validate_password
  chosen n [] = ok (generate_temporary_password (s.random_byte n), true)
  chosen n (c ∷ password) = elim (validate_password (c ∷ password)) [
    | ok _ ↦ ok (c ∷ password, false)
    | err e ↦ err (wrap (codes "create user") e)
  ]

  -- A temporary password is to be changed.
  unfoldable pub marked : Bool → User → Act User
  unfolding update_must_change_password
  marked false user = pure user
  marked true user = do
    wrapped (codes "create user: setting must_change_password")
        (update_must_change_password user.id true)
    pure (record user { must_change_password = true })

  -- `CreateUser`
  unfoldable pub create_user : ℕ → Text → Text → Text → Role → Act User
  unfolding chosen marked new_uuid Repository.create
  create_user tenant email name password role = do
    check (not (is_nil tenant)) (missing_tenant (codes "create user"))
    check (is_given email) (invalid (codes "create user: email cannot be empty"))
    check (is_given name) (invalid (codes "create user: name cannot be empty"))
    check (is_role role) (invalid (codes "create user: invalid role"))
    n ← new_uuid
    (plain, temporary) ← lift (chosen n password)
    hashed ← lift (wrap_err (codes "create user: hashing password") (s.hash_password plain))
    user ← wrapped (codes "create user") (Repository.create tenant email name hashed role)
    marked temporary user

  -- `ListUsers`
  unfoldable pub list_users : ℕ → Act (List User)
  unfolding Repository.list
  list_users tenant = do
    check (not (is_nil tenant)) (missing_tenant (codes "list users"))
    wrapped (codes "list users") (Repository.list tenant)

  -- `DeactivateUser`
  unfoldable pub deactivate_user : ℕ → Act (Unit {0})
  unfolding Repository.deactivate
  deactivate_user id = do
    check (not (is_nil id)) (invalid (codes "deactivate user: invalid user id"))
    wrapped (codes "deactivate user") (Repository.deactivate id)

  -- `ChangePassword`
  unfoldable pub change_password : ℕ → Text → Text → Act (Unit {0})
  unfolding validate_password text_eq get_password_hash_by_id update_password
  change_password id current new_password = do
    check (not (is_nil id)) (invalid (codes "change password: invalid user id"))
    check (is_given current) (invalid (codes "change password: current password cannot be empty"))
    check (is_given new_password) (invalid (codes "change password: new password cannot be empty"))
    lift (wrap_err (codes "change password") (validate_password new_password))
    check (not (text_eq current new_password))
        (invalid (codes "change password: new password must be different from current password"))
    hashed ← wrapped (codes "change password") (get_password_hash_by_id id)
    check (s.matches hashed current) (invalid (codes "change password: current password incorrect"))
    new_hash ←
        lift
          (wrap_err (codes "change password: hashing new password") (s.hash_password new_password))
    wrapped (codes "change password") (update_password id new_hash)

  -- `UpdateProfile`
  unfoldable pub update_profile : ℕ → Text → Act User
  unfolding update_name Repository.get_by_id
  update_profile id name = do
    check (not (is_nil id)) (invalid (codes "update profile: invalid user id"))
    check (is_given name) (invalid (codes "update profile: name cannot be empty"))
    wrapped (codes "update profile") (update_name id name)
    wrapped (codes "update profile") (Repository.get_by_id id)
