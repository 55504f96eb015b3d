-- ===== src/Backoffice/Repository.antt =====
-- internal/backoffice/repository.go: the statements on `backoffice_users`, with the constraints of
-- migration 010. Three operations take a connection and set the tenant of the session first.
use billax.Prelude.{
  ℕ, zero, suc, ◌+◌, Bool, true, false, not, ◌&&◌, Option, none, some, List, [], ◌∷◌, ◌++◌, ◌==◌,
  if◌then◌else◌, select, find, modify, Text, codes, text_eq,
}
use billax.Errors.{
  err_not_found, err_conflict, err_invalid_input, err_missing_tenant_id, Error, sentinel, wrap,
  opaque,
}
use billax.Result.{Result, ok, err}
use billax.Calendar.{at_or_before}
use billax.Tenant.Repository.{has_id}
use billax.Backoffice.{Role, role_admin, role_member, other_role, User, UserRow}
use billax.World.{World, Act, pure, lift, ◌>>=◌, ◌>>◌, check, wrapped, query}

abbrev pub is_nil : ℕ → Bool
is_nil zero = true
is_nil (suc n) = false

abbrev pub is_given : Text → Bool
is_given [] = false
is_given (c ∷ s) = true

abbrev pub invalid : Text → Error
invalid what = wrap what (sentinel err_invalid_input)

abbrev pub missing_tenant : Text → Error
missing_tenant what = wrap what (sentinel err_missing_tenant_id)

-- The connection, and `set_config` or `SET LOCAL` on it; that PostgreSQL takes the statement is assumed.
abbrev session : Text → Act (Unit {0})
session what = do
  wrapped (what ++ codes ": acquiring connection") query
  wrapped (what ++ codes ": setting tenant context") query

abbrev pub has_email : ℕ → Text → UserRow → Bool
has_email tenant email r = r.user.tenant_id == tenant && text_eq r.user.email email

abbrev pub has_user_id : ℕ → UserRow → Bool
has_user_id id r = r.user.id == id

abbrev pub new_user : World → ℕ → Text → Text → Text → Role → UserRow
new_user w tenant email name hashed role = record {
  user = record {
    id = w.fresh;
    tenant_id = tenant;
    email = email;
    role = role;
    name = name;
    must_change_password = false;
    is_active = true;
    created_at = w.now;
    updated_at = w.now;
  };
  password_hash = hashed;
}

abbrev email_taken : Text
email_taken =
    codes
      "ERROR: duplicate key value violates unique constraint \"idx_backoffice_users_email_tenant\" (SQLSTATE 23505)"

abbrev no_tenant : Text
no_tenant =
    codes
      "ERROR: insert or update on table \"backoffice_users\" violates foreign key constraint \"backoffice_users_tenant_id_fkey\" (SQLSTATE 23503)"

abbrev bad_role : Text
bad_role =
    codes
      "ERROR: new row for relation \"backoffice_users\" violates check constraint \"backoffice_users_role_check\" (SQLSTATE 23514)"

abbrev is_known_role : Role → Bool
is_known_role role_admin = true
is_known_role role_member = true
is_known_role (other_role t) = false

-- The constraint that the INSERT violates, as the message of the driver.
unfoldable pub user_clash : World → ℕ → Text → Role → Option Text
unfolding text_eq
user_clash w tenant email role =
    if not (is_known_role role)
    then some bad_role
    else elim (find (has_email tenant email) w.users) [
      | some taken ↦ some email_taken
      | none ↦ elim (find (has_id tenant) w.tenants) [ none ↦ some no_tenant | some t ↦ none ]
    ]

-- The comparison of `err.Error()` with the text of a violated constraint.
unfoldable pub insert_error : Text → Error
unfolding text_eq
insert_error message =
    if text_eq message (
      codes
        "new row for relation \"backoffice_users\" violates unique constraint \"idx_backoffice_users_email_tenant\"")
    then wrap (codes "create backoffice user: email already exists") (sentinel err_conflict)
    else wrap (codes "create backoffice user") (opaque message)

unfoldable pub insert_user : ℕ → Text → Text → Text → Role → Act User
unfolding user_clash insert_error
insert_user tenant email name hashed role w = elim (user_clash w tenant email role) [
  | some message ↦ (err (insert_error message), w)
  | none ↦
      let r = new_user w tenant email name hashed role in
      (ok r.user, record w { users = w.users ++ r ∷ []; fresh = w.fresh + 1 })
]

-- `Create`
unfoldable pub create : ℕ → Text → Text → Text → Role → Act User
unfolding query insert_user
create tenant email name hashed role = do
  check (not (is_nil tenant)) (missing_tenant (codes "create backoffice user"))
  check (is_given email) (invalid (codes "create backoffice user: email cannot be empty"))
  check (is_given hashed) (invalid (codes "create backoffice user: password_hash cannot be empty"))
  session (codes "create backoffice user")
  wrapped (codes "create backoffice user") query
  insert_user tenant email name hashed role

abbrev pub found : Text → List UserRow → (UserRow → Bool) → Result UserRow
found what rows p = elim (find p rows) [
  | none ↦ err (wrap what (sentinel err_not_found))
  | some r ↦ ok r
]

-- `GetByEmail`, with the hash
unfoldable pub get_by_email : ℕ → Text → Act UserRow
unfolding query text_eq
get_by_email tenant email w =
    (do
      check (not (is_nil tenant)) (missing_tenant (codes "get backoffice user by email"))
      check (is_given email) (invalid (codes "get backoffice user by email: email cannot be empty"))
      session (codes "get backoffice user by email")
      wrapped (codes "get backoffice user by email") query
      lift (found (codes "get backoffice user by email") w.users (has_email tenant email)))
      w

-- `GetByID`
unfoldable pub get_by_id : ℕ → Act User
unfolding query
get_by_id id w =
    (do
      check (not (is_nil id)) (invalid (codes "get backoffice user by id: invalid user id"))
      wrapped (codes "get backoffice user by id") query
      r ← lift (found (codes "get backoffice user by id") w.users (has_user_id id))
      pure r.user)
      w

-- `GetPasswordHashByID`
unfoldable pub get_password_hash_by_id : ℕ → Act Text
unfolding query
get_password_hash_by_id id w =
    (do
      check (not (is_nil id)) (invalid (codes "get backoffice user password hash: invalid user id"))
      wrapped (codes "get backoffice user password hash") query
      r ← lift (found (codes "get backoffice user password hash") w.users (has_user_id id))
      pure r.password_hash)
      w

-- `ORDER BY created_at DESC`
insert_latest : User → List User → List User
insert_latest u [] = u ∷ []
insert_latest u (q ∷ qs) =
    let later = insert_latest u qs in
    if at_or_before q.created_at u.created_at then u ∷ q ∷ qs else q ∷ later

unfoldable pub latest_users : List UserRow → List User
unfolding insert_latest
latest_users [] = []
latest_users (r ∷ rs) = insert_latest r.user (latest_users rs)

-- `List`
unfoldable pub list : ℕ → Act (List User)
unfolding query latest_users
list tenant w =
    (do
      check (not (is_nil tenant)) (missing_tenant (codes "list backoffice users"))
      session (codes "list backoffice users")
      wrapped (codes "list backoffice users") query
      pure (latest_users (select (λ r. r.user.tenant_id == tenant) w.users)))
      w

-- An UPDATE of one row, and `RowsAffected() == 0`.
unfoldable pub update_user : Text → ℕ → (UserRow → UserRow) → Act (Unit {0})
unfolding query
update_user what id f w =
    (do
      wrapped what query
      r ← lift (found what w.users (has_user_id id))
      λ v. (ok tt, record v { users = modify (has_user_id id) f v.users }))
      w

abbrev pub with_password : World → Text → UserRow → UserRow
with_password w hashed r =
    let u = r.user in
    record r {
      user = record u { must_change_password = false; updated_at = w.now };
      password_hash = hashed;
    }

-- `UpdatePassword`
unfoldable pub update_password : ℕ → Text → Act (Unit {0})
unfolding update_user
update_password id hashed w =
    (do
      check (not (is_nil id)) (invalid (codes "update backoffice user password: invalid user id"))
      check (is_given hashed)
          (invalid (codes "update backoffice user password: password_hash cannot be empty"))
      update_user (codes "update backoffice user password") id (with_password w hashed))
      w

abbrev marked : World → Bool → UserRow → UserRow
marked w value r =
    let u = r.user in
    record r { user = record u { must_change_password = value; updated_at = w.now } }

-- `UpdateMustChangePassword`
unfoldable pub update_must_change_password : ℕ → Bool → Act (Unit {0})
unfolding update_user
update_must_change_password id value w =
    (do
      check (not (is_nil id))
          (invalid (codes "update backoffice user must_change_password: invalid user id"))
      update_user (codes "update backoffice user must_change_password") id (marked w value))
      w

abbrev renamed : World → Text → UserRow → UserRow
renamed w name r =
    let u = r.user in record r { user = record u { name = name; updated_at = w.now } }

-- `UpdateName`
unfoldable pub update_name : ℕ → Text → Act (Unit {0})
unfolding update_user
update_name id name w =
    (do
      check (not (is_nil id)) (invalid (codes "update backoffice user name: invalid user id"))
      check (is_given name) (invalid (codes "update backoffice user name: name cannot be empty"))
      update_user (codes "update backoffice user name") id (renamed w name))
      w

abbrev disabled : World → UserRow → UserRow
disabled w r =
    let u = r.user in record r { user = record u { is_active = false; updated_at = w.now } }

-- `Deactivate`
unfoldable pub deactivate : ℕ → Act (Unit {0})
unfolding update_user
deactivate id w =
    (do
      check (not (is_nil id)) (invalid (codes "deactivate backoffice user: invalid user id"))
      update_user (codes "deactivate backoffice user") id (disabled w))
      w
