-- ===== src/Backoffice/Service/Sessions.antt =====
-- internal/backoffice/service.go and jwt.go together: who is logged in, and what the token says.
use billax.Prelude.{
  ℕ, zero, suc, ◌+◌, ◌<◌, ◌≡◌, refl, sym, ap, ◌∙◌, inl, inr, true, false, Option, none, some, List,
  [], ◌∷◌, arith, Bool-cases, Option-cases, find, Text, codes, text_eq→eq,
}
use billax.Result.{Result, ok, err, Result-cases}
use billax.Calendar.{Time}
use billax.Backoffice.{User, UserRow, role_text, role_of}
use billax.Backoffice.Token.{
  IsJwt, unix, generate_token, validate_token, validate_token-generate_token,
}
use billax.Backoffice.Repository.{has_email, get_by_email, invalid}
use billax.Backoffice.Service.{BackofficeService, admit, login}
use billax.World.{World, query}

-- What `Login` answers for the row it finds.
abbrev pub answered : BackofficeService → Text → Time → Option UserRow → Result (Text × User)
answered s password now none = err (invalid (codes "login"))
answered s password now (some r) = admit s password r now

pub login-answered :
    (s : BackofficeService) (t c d : ℕ) (email password : Text) (w : World)
    → w.faults ≡ []
    → (login s (suc t) (c ∷ email) (d ∷ password) w).0
      ≡ answered s (d ∷ password) w.now (find (has_email (suc t) (c ∷ email)) w.users)
unfolding login get_by_email query
login-answered s t c d email password w calm =
    elim (Option-cases (find (has_email (suc t) (c ∷ email)) w.users)) [
      | inl free ↦ rw (calm, free) refl
      | inr (r, there) ↦ rw (calm, there) refl
    ]

answered-login :
    (s : BackofficeService) (tenant : ℕ) (email password : Text) (w : World) (a : Text × User)
    → w.faults ≡ []
    → (login s tenant email password w).0 ≡ ok a
    → answered s password w.now (find (has_email tenant email) w.users) ≡ ok a
unfolding login
answered-login s zero email password w a calm h = absurd (cc h)
answered-login s (suc t) [] password w a calm h = absurd (cc h)
answered-login s (suc t) (c ∷ email) [] w a calm h = absurd (cc h)
answered-login s (suc t) (c ∷ email) (d ∷ password) w a calm h =
    sym (login-answered s t c d email password w calm) ∙ h

-- A row that lets its user in.
pub record IsAdmitted (s : BackofficeService) (password : Text) (r : UserRow) (now : Time)
    (token : Text) : Type 0 where
  pub active : r.user.is_active ≡ true
  pub verified : s.matches r.password_hash password ≡ true
  pub settled : r.user.must_change_password ≡ false
  pub issued : generate_token s.jwt r.user s.jwt_secret s.jwt_ttl now ≡ ok token

admit-IsAdmitted :
    (s : BackofficeService) (password : Text) (r : UserRow) (now : Time) (a : Text × User)
    → admit s password r now ≡ ok a
    → IsAdmitted s password r now a.0 × (a.1 ≡ r.user)
unfolding admit
admit-IsAdmitted s password r now a h =
    elim (Result-cases (generate_token s.jwt r.user s.jwt_secret s.jwt_ttl now)) [
      | inl (token, made) ↦
          let granted : (token, r.user) ≡ a = ground (arith, made, h) in
          (
            record {
              active = ground (arith, h);
              verified = ground (arith, h);
              settled = ground (arith, h);
              issued = made ∙ ap (λ p. ok p.0) granted;
            },
            sym (ap (λ p. p.1) granted),
          )
      | inr (e, failed) ↦ absurd (ground (arith, failed, h))
    ]

has_email-tenant_id :
    (tenant : ℕ) (email : Text) (rows : List UserRow) (r : UserRow)
    → find (has_email tenant email) rows ≡ some r
    → (r.user.tenant_id ≡ tenant) × (r.user.email ≡ email)
has_email-tenant_id tenant email [] r h = absurd (cc h)
has_email-tenant_id tenant email (q ∷ rows) r h = elim (Bool-cases (has_email tenant email q)) [
  | inl hit ↦
      let same : q ≡ r = ground (arith, hit, h) in
      rw (← same) (ground (arith, hit), text_eq→eq q.user.email email (ground (arith, hit)))
  | inr miss ↦ has_email-tenant_id tenant email rows r (ground (arith, miss, h))
]

-- The row behind a login that succeeds.
pub login_row :
    (s : BackofficeService) (tenant : ℕ) (email password token : Text) (user : User) (w : World)
    → w.faults ≡ []
    → (login s tenant email password w).0 ≡ ok (token, user)
    → (r : UserRow) × (find (has_email tenant email) w.users ≡ some r)
      × IsAdmitted s password r w.now token
      × (user ≡ r.user)
      × (r.user.tenant_id ≡ tenant)
      × (r.user.email ≡ email)
login_row s tenant email password token user w calm h =
    let admitted = answered-login s tenant email password w (token, user) calm h in
    elim (Option-cases (find (has_email tenant email) w.users)) [
      | inl free ↦ absurd (cc (ap (answered s password w.now) free, admitted))
      | inr (r, there) ↦
          let granted = ap (answered s password w.now) (sym there) ∙ admitted in
          let (ok_row, same_user) = admit-IsAdmitted s password r w.now (token, user) granted in
          let (of_tenant, of_email) = has_email-tenant_id tenant email w.users r there in
          (r, there, ok_row, same_user, of_tenant, of_email)
    ]

pub login_issued :
    (s : BackofficeService) (tenant : ℕ) (email password token : Text) (user : User) (w : World)
    → w.faults ≡ []
    → (login s tenant email password w).0 ≡ ok (token, user)
    → (generate_token s.jwt user s.jwt_secret s.jwt_ttl w.now ≡ ok token)
      × (user.tenant_id ≡ tenant)
login_issued s tenant email password token user w calm h =
    let (r, there, ok_row, same_user, of_tenant, of_email) =
      login_row s tenant email password token user w calm h in
    rw same_user (ok_row.issued, of_tenant)

-- Where the database does not fail, a login that succeeds is that of a user of the tenant with the
-- email, who is active, whose stored hash matches the password and who need not change it; and until
-- it expires the token is valid under the secret and carries the user, the tenant, the email and the
-- role, one of the two.
pub login_sound :
    (s : BackofficeService) (laws : IsJwt s.jwt) (tenant : ℕ) (email password token : Text)
    (user : User) (w : World)
    → w.faults ≡ []
    → (login s tenant email password w).0 ≡ ok (token, user)
    → role_of (role_text user.role) ≡ user.role
    → (r : UserRow) × (find (has_email tenant email) w.users ≡ some r)
      × IsAdmitted s password r w.now token
      × ((now : Time)
          → unix now < unix w.now + s.jwt_ttl
          → validate_token s.jwt token s.jwt_secret now
            ≡ ok
                (record { user_id = user.id; tenant_id = tenant; email = email; role = user.role }))
login_sound s laws tenant email password token user w calm h role =
    let (r, there, ok_row, same_user, of_tenant, of_email) =
      login_row s tenant email password token user w calm h in
    (
      r,
      there,
      ok_row,
      λ now ahead.
          rw (same_user, ← of_tenant, ← of_email)
            (validate_token-generate_token s.jwt laws r.user s.jwt_secret token s.jwt_ttl w.now now
              (rw (← same_user) role) ok_row.issued ahead),
    )
