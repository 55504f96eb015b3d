-- ===== src/World.antt =====
-- What the services act on: the tables of the database, the charges that were sent to payment
-- providers, and the environment. An operation takes the world and returns its result beside the world
-- that it leaves, also when it fails.
--
-- The database (migrations/*.sql) is PostgreSQL. Each statement of a repository is a function on the
-- rows; `faults` lists, for the statements to come, whether the statement fails with an error of the
-- driver, and a statement whose entry is missing succeeds. Row-level security is left out: the rows are
-- those that the session may see. `now` is the clock of the server and of the database; it stands
-- still during one operation. `fresh` is the next uuid to be made.
pub mod Keeps
pub mod Preserves
use billax.Prelude.{ℕ, ◌+◌, ◌≡◌, refl, Bool, true, false, List, [], ◌∷◌, Text, codes}
use billax.Errors.{Error, opaque}
use billax.Result.{Result, ok, err, wrap_err}
use billax.Calendar.{Time}
use billax.Plan.{Plan}
use billax.Provider.{ChargeRequest}
use billax.Payment.{Payment}
use billax.Subscription.{Subscription}
use billax.Tenant.{Tenant, KeyRow}
use billax.Credentials.{CredentialRow}
use billax.Backoffice.{UserRow}

-- A row of `subscriptions`.
pub record Row : Type 0 where
  pub sub : Subscription
  pub key : Text

pub record World : Type 0 where
  pub subs : List Row
  pub plans : List Plan
  pub payments : List Payment
  pub charges : List (Text × ChargeRequest)
  pub tenants : List Tenant
  pub api_keys : List KeyRow
  pub credentials : List CredentialRow
  pub users : List UserRow
  pub now : Time
  pub fresh : ℕ
  pub faults : List Bool

abbrev pub Act {ℓ} : Type ℓ → Type ℓ
Act A = World → Result A × World

abbrev pub pure {ℓ} : {A : Type ℓ} → A → Act A
pure a w = (ok a, w)

abbrev pub fail {ℓ} : {A : Type ℓ} → Error → Act A
fail e w = (err e, w)

abbrev pub lift {ℓ} : {A : Type ℓ} → Result A → Act A
lift r w = (r, w)

abbrev pub resume {ℓ κ} :
    {A : Type ℓ} {B : Type κ} → Result A × World → (A → World → Result B × World) → Result B × World
resume (ok a, w) f = f a w
resume (err e, w) f = (err e, w)

infixl 5 ◌>>=◌ ◌>>◌
abbrev pub ◌>>=◌ {ℓ κ} : {A : Type ℓ} {B : Type κ} → Act A → (A → Act B) → Act B
◌>>=◌ m f w = resume (m w) f

abbrev pub ◌>>◌ {ℓ} : {B : Type ℓ} → Act (Unit {0}) → Act B → Act B
m >> k = m >>= λ _. k

abbrev pub check : Bool → Error → Act (Unit {0})
check true e w = (ok tt, w)
check false e w = (err e, w)

-- `fmt.Errorf("prefix: %w", err)` on the error of an action.
abbrev pub wrapped {ℓ} : {A : Type ℓ} → Text → Act A → Act A
wrapped prefix m w = let (r, w') = m w in (wrap_err prefix r, w')

abbrev pub driver_error : Error
driver_error = opaque (codes "connection lost")

abbrev pub constraint_error : Error
constraint_error = opaque (codes "violates a constraint")

abbrev answer : List Bool → World → Result (Unit {0}) × World
answer [] w = (ok tt, w)
answer (false ∷ later) w = (ok tt, record w { faults = later })
answer (true ∷ later) w = (err driver_error, record w { faults = later })

-- One statement is sent to the database.
unfoldable pub query : Act (Unit {0})
query w = answer w.faults w

-- uuid.New(), gen_random_uuid()
unfoldable pub new_uuid : Act ℕ
new_uuid w = (ok w.fresh, record w { fresh = w.fresh + 1 })

-- An action that succeeds has a last step that does.
pub resume_ok {ℓ κ ι} :
    {A : Type ℓ} {B : Type κ} {Q : Type ι} (x : Result A × World) (f : A → Act B) (r : B)
    → (resume x f).0 ≡ ok r
    → ((a : A) (w : World) → (f a w).0 ≡ ok r → Q)
    → Q
resume_ok (ok a, w) f r e k = k a w e
resume_ok (err x, w) f r e k = cc

-- The same, with the equation of the action.
pub resume_at {ℓ κ ι} :
    {A : Type ℓ} {B : Type κ} {Q : Type ι} (x : Result A × World) (f : A → Act B) (r : B)
    → (resume x f).0 ≡ ok r
    → ((a : A) (w : World) → x ≡ (ok a, w) → (f a w).0 ≡ ok r → Q)
    → Q
resume_at (ok a, w) f r e k = k a w refl e
resume_at (err x, w) f r e k = cc

pub check_world : (b : Bool) (e : Error) (w : World) → (check b e w).1 ≡ w
check_world true e w = refl
check_world false e w = refl
