-- ===== src/Backoffice/Service/Passwords.antt =====
-- internal/backoffice/service.go: ChangePassword, and the login after it.
use billax.Prelude.{
  ℕ, zero, suc, ◌≡◌, refl, sym, ap, ◌∙◌, inl, inr, Bool, true, false, some, List, [], ◌∷◌, ==_iff,
  arith, Bool-cases, Option-cases, find, modify, Text, text_eq,
}
use billax.Result.{Result, ok, err, Result-cases}
use billax.Calendar.{Time}
use billax.Backoffice.{User, UserRow}
use billax.Backoffice.Token.{generate_token}
use billax.Backoffice.Password.{validate_password}
use billax.Backoffice.Repository.{
  is_nil, is_given, has_email, has_user_id, with_password, get_password_hash_by_id, update_password,
  update_user,
}
use billax.Backoffice.Service.{BackofficeService, admit, login, change_password}
use billax.Backoffice.Service.Sessions.{answered, login-answered}
use billax.World.{World, query}

-- What a change of a password that succeeds has checked, and what it leaves.
pub record IsChanged (s : BackofficeService) (id : ℕ) (current new_password : Text) (w w' : World)
    : Type 0 where
  pub row : UserRow
  pub hashed : Text
  pub there : find (has_user_id id) w.users ≡ some row
  pub verified : s.matches row.password_hash current ≡ true
  pub obeys : validate_password new_password ≡ ok tt
  pub differs : text_eq current new_password ≡ false
  pub hash : s.hash_password new_password ≡ ok hashed
  pub left : w' ≡ record w { users = modify (has_user_id id) (with_password w hashed) w.users }

abbrev succeeds : Result (Unit {0}) → Bool
succeeds (ok a) = true
succeeds (err e) = false

module _ (s : BackofficeService) (id : ℕ) (c : ℕ) (cs : Text) (d : ℕ) (ds : Text) (w w' : World)
    (calm : w.faults ≡ []) (h : change_password s (suc id) (c ∷ cs) (d ∷ ds) w ≡ (ok tt, w')) where
  not_refused : succeeds (change_password s (suc id) (c ∷ cs) (d ∷ ds) w).0 ≡ false → ⊥
  not_refused e = absurd (cc (e, ap (λ p. succeeds p.0) h))

  -- The end, once all but the new hash is checked.
  module _ (r : UserRow) (good : validate_password (d ∷ ds) ≡ ok tt)
      (differs : text_eq (c ∷ cs) (d ∷ ds) ≡ false)
      (there : find (has_user_id (suc id)) w.users ≡ some r)
      (right : s.matches r.password_hash (c ∷ cs) ≡ true) where
    stored :
        (hashed : Text)
        → s.hash_password (d ∷ ds) ≡ ok hashed
        → IsChanged s (suc id) (c ∷ cs) (d ∷ ds) w w'
    unfolding change_password get_password_hash_by_id update_password update_user query
    stored [] made = absurd (not_refused (rw (good, differs, calm, there, right, made) refl))
    stored (x ∷ xs) made = record {
      row = r;
      hashed = x ∷ xs;
      there = there;
      verified = right;
      obeys = good;
      differs = differs;
      hash = made;
      left =
          let run : change_password s (suc id) (c ∷ cs) (d ∷ ds) w ≡ (
            ok tt,
            record w { users = modify (has_user_id (suc id)) (with_password w (x ∷ xs)) w.users },
          ) =
            rw (good, differs, calm, there, right, made, there) refl in
          sym (ap (λ p. p.1) h) ∙ ap (λ p. p.1) run;
    }

    hashed_or_not : IsChanged s (suc id) (c ∷ cs) (d ∷ ds) w w'
    unfolding change_password get_password_hash_by_id query
    hashed_or_not = elim (Result-cases (s.hash_password (d ∷ ds))) [
      | inr (e, failed) ↦ absurd (not_refused (rw (good, differs, calm, there, right, failed) refl))
      | inl (hashed, made) ↦ stored hashed made
    ]

  changed : IsChanged s (suc id) (c ∷ cs) (d ∷ ds) w w'
  unfolding change_password get_password_hash_by_id query
  changed = elim (Result-cases (validate_password (d ∷ ds))) [
    | inr (e, bad) ↦ absurd (not_refused (rw bad refl))
    | inl (u, good) ↦ elim (Bool-cases (text_eq (c ∷ cs) (d ∷ ds))) [
      | inl same ↦ absurd (not_refused (rw (good, same) refl))
      | inr differs ↦ elim (Option-cases (find (has_user_id (suc id)) w.users)) [
        | inl unknown ↦ absurd (not_refused (rw (good, differs, calm, unknown) refl))
        | inr (r, there) ↦ elim (Bool-cases (s.matches r.password_hash (c ∷ cs))) [
          | inr wrong ↦ absurd (not_refused (rw (good, differs, calm, there, wrong) refl))
          | inl right ↦ hashed_or_not r good differs there right
        ]
      ]
    ]
  ]

pub change_password-IsChanged :
    (s : BackofficeService) (id : ℕ) (current new_password : Text) (w w' : World)
    → w.faults ≡ []
    → change_password s id current new_password w ≡ (ok tt, w')
    → IsChanged s id current new_password w w'
unfolding change_password
change_password-IsChanged s zero current new_password w w' calm h = absurd (cc h)
change_password-IsChanged s (suc id) [] new_password w w' calm h = absurd (cc h)
change_password-IsChanged s (suc id) (c ∷ cs) [] w w' calm h = absurd (cc h)
change_password-IsChanged s (suc id) (c ∷ cs) (d ∷ ds) w w' calm h =
    changed s id c cs d ds w w' calm h

-- The row that a user has, once it is changed in a way that keeps what it is found by.
module _ (p q : UserRow → Bool) (f : UserRow → UserRow)
    (keeps : (x : UserRow) → p (f x) ≡ p x) where
  find-modify_row :
      (rows : List UserRow) (r : UserRow)
      → find p rows ≡ some r
      → q r ≡ true
      → find p (modify q f rows) ≡ some (f r)
  find-modify_row [] r h hit = absurd (cc h)
  find-modify_row (x ∷ rows) r h hit = elim (Bool-cases (p x)) [
    | inl first ↦
        let same : x ≡ r = ground (arith, first, h) in
        rw (ap q same ∙ hit, keeps x, first) (ap (λ y. some (f y)) same)
    | inr later ↦
        let rest = find-modify_row rows r (ground (arith, later, h)) hit in
        elim (Bool-cases (q x)) [
          | inl mine ↦ rw (mine, keeps x, later) rest
          | inr other ↦ rw (other, later) rest
        ]
  ]

admit_settled :
    (s : BackofficeService) (password : Text) (r : UserRow) (now : Time) (token : Text)
    → r.user.is_active ≡ true
    → s.matches r.password_hash password ≡ true
    → r.user.must_change_password ≡ false
    → generate_token s.jwt r.user s.jwt_secret s.jwt_ttl now ≡ ok token
    → admit s password r now ≡ ok (token, r.user)
unfolding admit
admit_settled s password r now token active verified settled made =
    simp (active, verified, settled, made)

-- The user after the change.
abbrev pub settled_user : World → User → User
settled_user w u = record u { must_change_password = false; updated_at = w.now }

-- Where the database does not fail, after a change of a password that succeeds the user logs in with
-- the new password, although a change of it was due: for a user who is active and is found by the
-- tenant and the email, if bcrypt accepts what it has hashed and a token can be made for the user, then
-- the login answers with that token and the user.
pub login-change_password :
    (s : BackofficeService)
    (accepts : (p hashed : Text) → s.hash_password p ≡ ok hashed → s.matches hashed p ≡ true)
    (tenant : ℕ) (email current new_password token : Text) (w w' : World) (r : UserRow)
    → w.faults ≡ []
    → is_nil tenant ≡ false
    → is_given email ≡ true
    → find (has_email tenant email) w.users ≡ some r
    → r.user.is_active ≡ true
    → generate_token s.jwt (settled_user w r.user) s.jwt_secret s.jwt_ttl w.now ≡ ok token
    → change_password s r.user.id current new_password w ≡ (ok tt, w')
    → (login s tenant email new_password w').0 ≡ ok (token, settled_user w r.user)
unfolding validate_password
login-change_password s accepts zero email current new_password token w w' r calm named given there
      active made h =
    absurd (cc named)
login-change_password s accepts (suc t) [] current new_password token w w' r calm named given there
      active made h =
    absurd (cc given)
login-change_password s accepts (suc t) (c ∷ email) current [] token w w' r calm named given there
      active made h =
    absurd (cc (change_password-IsChanged s r.user.id current [] w w' calm h).obeys)
login-change_password s accepts (suc t) (c ∷ email) current (d ∷ ds) token w w' r calm named given
      there active made h =
    let done = change_password-IsChanged s r.user.id current (d ∷ ds) w w' calm h in
    let f = with_password w done.hashed in
    let here : find (has_email (suc t) (c ∷ email)) (modify (has_user_id r.user.id) f w.users)
        ≡ some (f r) =
      find-modify_row (has_email (suc t) (c ∷ email)) (has_user_id r.user.id) f (λ x. refl) w.users
        r there ((==_iff r.user.id r.user.id).1 refl) in
    rw done.left (
      login-answered s t c d email ds _ calm
      ∙ ap (answered s (d ∷ ds) w.now) here
      ∙ admit_settled s (d ∷ ds) (f r) w.now token active (accepts (d ∷ ds) done.hashed done.hash)
          refl made)
