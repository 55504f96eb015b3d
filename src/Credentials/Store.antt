-- ===== src/Credentials/Store.antt =====
-- internal/providercredentials/repository.go: the table as a map from a tenant and a provider to the
-- text of a config, and what the operations do to that map.
use billax.Prelude.{
  ℕ, ◌≡◌, refl, inl, inr, Bool, true, false, not, ◌&&◌, Option, none, some, List, [], ◌∷◌, ◌++◌,
  arith, ◌==◌, if◌then◌else◌, Bool-cases, Option-cases, select, find, modify, Text, text_eq,
  text_eq→eq, text_eq_refl, text_eq_symm,
}
use billax.World.{World}
use billax.Credentials.{CredentialRow}
use billax.Credentials.Repository.{is_credential, replaced, new_row, put_row}

abbrev text_of : Option CredentialRow → Option Text
text_of none = none
text_of (some r) = some r.config

-- The text that is stored for a tenant and a provider.
abbrev pub stored_at : List CredentialRow → ℕ → Text → Option Text
stored_at rows tenant name = text_of (find (is_credential tenant name) rows)

abbrev pub same_key : ℕ → Text → ℕ → Text → Bool
same_key t n t' n' = t' == t && text_eq n' n

module _ (p : CredentialRow → Bool) where
  text_of-modify :
      (f : CredentialRow → CredentialRow) (config : Text)
      → ((r : CredentialRow) → p (f r) ≡ p r)
      → ((r : CredentialRow) → (f r).config ≡ config)
      → (rows : List CredentialRow) (r : CredentialRow) → find p rows ≡ some r
      → text_of (find p (modify p f rows)) ≡ some config
  text_of-modify f config keeps writes [] r h = absurd (cc)
  text_of-modify f config keeps writes (q ∷ rows) r h = elim (Bool-cases (p q)) [
    | inl hit ↦ rw (hit, keeps q, hit, writes q) refl
    | inr miss ↦
        rw (miss, miss) (text_of-modify f config keeps writes rows r (ground (arith, miss, h)))
  ]

  text_of-append :
      (rows : List CredentialRow) (q : CredentialRow)
      → find p rows ≡ none
      → p q ≡ true
      → text_of (find p (rows ++ q ∷ [])) ≡ some q.config
  text_of-append [] q h hit = rw hit refl
  text_of-append (r ∷ rows) q h hit = elim (Bool-cases (p r)) [
    | inl old ↦ absurd (ground (arith, old, h))
    | inr miss ↦ rw miss (text_of-append rows q (ground (arith, miss, h)) hit)
  ]

  text_of-append_other :
      (rows : List CredentialRow) (q : CredentialRow)
      → p q ≡ false
      → text_of (find p (rows ++ q ∷ [])) ≡ text_of (find p rows)
  text_of-append_other [] q miss = rw miss refl
  text_of-append_other (r ∷ rows) q miss = elim (Bool-cases (p r)) [
    | inl old ↦ rw old refl
    | inr new ↦ rw new (text_of-append_other rows q miss)
  ]

  find-select : (rows : List CredentialRow) → find p (select (λ r. not (p r)) rows) ≡ none
  find-select [] = refl
  find-select (r ∷ rows) = elim (Bool-cases (p r)) [
    | inl hit ↦ rw hit (find-select rows)
    | inr miss ↦ rw (miss, miss) (find-select rows)
  ]

  module _ (q : CredentialRow → Bool) (apart : (r : CredentialRow) → q r ≡ true → p r ≡ false) where
    text_of-modify_other :
        (f : CredentialRow → CredentialRow)
        → ((r : CredentialRow) → p (f r) ≡ p r)
        → (rows : List CredentialRow) → text_of (find p (modify q f rows)) ≡ text_of (find p rows)
    text_of-modify_other f keeps [] = refl
    text_of-modify_other f keeps (r ∷ rows) = elim (Bool-cases (q r)) [
      | inl hit ↦ rw (hit, keeps r, apart r hit) (text_of-modify_other f keeps rows)
      | inr miss ↦ elim (Bool-cases (p r)) [
        | inl here ↦ rw (miss, here) refl
        | inr later ↦ rw (miss, later) (text_of-modify_other f keeps rows)
      ]
    ]

    text_of-select_other :
        (rows : List CredentialRow)
        → text_of (find p (select (λ r. not (q r)) rows)) ≡ text_of (find p rows)
    text_of-select_other [] = refl
    text_of-select_other (r ∷ rows) = elim (Bool-cases (q r)) [
      | inl hit ↦ rw (hit, apart r hit) (text_of-select_other rows)
      | inr miss ↦ elim (Bool-cases (p r)) [
        | inl here ↦ rw (miss, here) refl
        | inr later ↦ rw (miss, later) (text_of-select_other rows)
      ]
    ]

-- The tests on two keys: they are one key, or no row passes both.
pub same_key→eq :
    (t : ℕ) (n : Text) (t' : ℕ) (n' : Text) → same_key t n t' n' ≡ true → (t' ≡ t) × (n' ≡ n)
same_key→eq t n t' n' h = (ground (arith, h), text_eq→eq n' n (ground (arith, h)))

is_credential-apart :
    (t : ℕ) (n : Text) (t' : ℕ) (n' : Text)
    → same_key t n t' n' ≡ false
    → (r : CredentialRow) → is_credential t n r ≡ true
    → is_credential t' n' r ≡ false
is_credential-apart t n t' n' h r hit =
    let tenant : r.tenant_id ≡ t = ground (arith, hit) in
    let name : r.provider_name ≡ n = text_eq→eq r.provider_name n (ground (arith, hit)) in
    rw (tenant, name, text_eq_symm n n') (ground (arith, h))

is_credential_self :
    (t : ℕ) (n : Text) (r : CredentialRow)
    → r.tenant_id ≡ t
    → r.provider_name ≡ n
    → is_credential t n r ≡ true
is_credential_self t n r a b = rw (a, b, text_eq_refl n) (ground arith)

module _ (w : World) (t : ℕ) (n config secret : Text) (rows : List CredentialRow) where
  abbrev new : CredentialRow
  new = new_row w t n config secret

  put_row_here : stored_at (put_row w t n config secret rows) t n ≡ some config
  unfolding put_row
  put_row_here = elim (Option-cases (find (is_credential t n) rows)) [
    | inl free ↦
        rw (put_row, free)
          (text_of-append (is_credential t n) rows new free (is_credential_self t n new refl refl))
    | inr (r, taken) ↦
        rw (put_row, taken)
          (text_of-modify (is_credential t n) (replaced w config secret) config (λ q. refl)
            (λ q. refl) rows r taken)
  ]

  put_row_other :
      (t' : ℕ) (n' : Text)
      → same_key t n t' n' ≡ false
      → stored_at (put_row w t n config secret rows) t' n' ≡ stored_at rows t' n'
  unfolding put_row
  put_row_other t' n' h = elim (Option-cases (find (is_credential t n) rows)) [
    | inl free ↦
        rw (put_row, free)
          (text_of-append_other (is_credential t' n') rows new
            (is_credential-apart t n t' n' h new (is_credential_self t n new refl refl)))
    | inr (r, taken) ↦
        rw (put_row, taken)
          (text_of-modify_other (is_credential t' n') (is_credential t n)
            (is_credential-apart t n t' n' h) (replaced w config secret) (λ q. refl) rows)
  ]

  -- Putting a row is writing the map at one key.
  pub stored_at-put_row :
      (t' : ℕ) (n' : Text)
      → stored_at (put_row w t n config secret rows) t' n'
        ≡ (if same_key t n t' n' then some config else stored_at rows t' n')
  stored_at-put_row t' n' = elim (Bool-cases (same_key t n t' n')) [
    | inl same ↦ let (a, b) = same_key→eq t n t' n' same in rw (same, a, b, put_row_here) refl
    | inr other ↦ rw (other, put_row_other t' n' other) refl
  ]

-- Removing the rows of a key is clearing the map at it.
pub stored_at-select :
    (rows : List CredentialRow) (t : ℕ) (n : Text) (t' : ℕ) (n' : Text)
    → stored_at (select (λ q. not (is_credential t n q)) rows) t' n'
      ≡ (if same_key t n t' n' then none else stored_at rows t' n')
stored_at-select rows t n t' n' = elim (Bool-cases (same_key t n t' n')) [
  | inl hit ↦
      let (a, b) = same_key→eq t n t' n' hit in
      rw (hit, a, b, find-select (is_credential t n) rows) refl
  | inr miss ↦ rw miss (
      text_of-select_other (is_credential t' n') (is_credential t n)
        (is_credential-apart t n t' n' miss) rows)
]
