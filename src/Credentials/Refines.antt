-- ===== src/Credentials/Refines.antt =====
-- internal/providercredentials/repository.go: `Get`, `Set` and `Delete` as operations on a map from a
-- tenant and a provider to a config, whatever the representation of a row.
use billax.Prelude.{
  ℕ, zero, suc, ◌+◌, ◌≡◌, refl, sym, ap, ◌∙◌, inl, inr, not, Option, none, some, [], ◌∷◌,
  if◌then◌else◌, Bool-cases, Option-cases, select, find, Text, codes,
}
use billax.Crypto.{IsCipher}
use billax.Errors.{err_not_found, err_invalid_input, err_missing_tenant_id, same, sentinel, wrap}
use billax.Result.{Result, ok, err}
use billax.Provider.{Config, config_value}
use billax.Credentials.{Vault}
use billax.Credentials.Codec.{enc_field, read_config, sealed, IsStored, read_config-sealed}
use billax.Credentials.Repository.{
  is_credential, violation, put_row, set_error, upsert_row, set, get, delete_rows, delete,
}
use billax.Credentials.Store.{stored_at, same_key, same_key→eq, stored_at-put_row, stored_at-select}
use billax.World.{World, query, new_uuid}

upserted_world :
    (t : ℕ) (name config secret : Text) (w w' : World)
    → upsert_row t name config secret w ≡ (ok tt, w')
    → record w { credentials = put_row w t name config secret w.credentials } ≡ w'
upserted_world t name config secret w w' h = elim (Option-cases (violation w t name secret)) [
  | inl fine ↦
      let run : upsert_row t name config secret w
          ≡ (ok tt, record w { credentials = put_row w t name config secret w.credentials }) =
        unfold upsert_row in rw (upsert_row, fine) refl in
      ap (λ p. p.1) (sym run ∙ h)
  | inr (message, refused) ↦
      let run : upsert_row t name config secret w ≡ (err (set_error name message), w) =
        unfold upsert_row in rw (upsert_row, refused) refl in
      absurd (cc (run, h))
]

module _ (v : Vault) where
  -- What `Get` answers for the text that is stored.
  abbrev got : ℕ → Text → Option Text → Result Config
  got zero name stored = err (wrap (codes "get credentials") (sentinel err_missing_tenant_id))
  got (suc t) [] stored =
      err
        (wrap (codes "get credentials: provider_name cannot be empty") (sentinel err_invalid_input))
  got (suc t) (c ∷ name) none = err (wrap (codes "get credentials") (sentinel err_not_found))
  got (suc t) (c ∷ name) (some raw) =
      read_config v (codes "get credentials") (codes ": unmarsaling config") raw

  got-get :
      (t : ℕ) (name : Text) (w : World)
      → w.faults ≡ []
      → (get v t name w).0 ≡ got t name (stored_at w.credentials t name)
  unfolding get query
  got-get zero name w calm = refl
  got-get (suc t) [] w calm = refl
  got-get (suc t) (c ∷ name) w calm =
      elim (Option-cases (find (is_credential (suc t) (c ∷ name)) w.credentials)) [
        | inl free ↦ rw (calm, free) refl
        | inr (r, taken) ↦ rw (calm, taken) refl
      ]

  -- A run of `Set` on arguments that pass its checks.
  run-set :
      (t : ℕ) (c : ℕ) (name : Text) (kv : Text × Text) (config : Config) (text stored : Text)
      (w : World)
      → w.faults ≡ []
      → v.marshal (kv ∷ config) ≡ ok text
      → sealed v w.fresh text ≡ ok stored
      → set v (suc t) (c ∷ name) (kv ∷ config) w
        ≡ upsert_row
            (suc t)
            (c ∷ name)
            stored
            (config_value (kv ∷ config) (codes "webhook_secret"))
            (record w { fresh = w.fresh + 1 })
  unfolding set query new_uuid
  run-set t c name kv config text stored w calm marshaled made = rw (marshaled, made, calm) refl

  -- What a successful `Set` writes.
  stores :
      (t : ℕ) (name : Text) (config : Config) (text stored : Text) (w w' : World)
      → w.faults ≡ []
      → v.marshal config ≡ ok text
      → sealed v w.fresh text ≡ ok stored
      → set v t name config w ≡ (ok tt, w')
      → (secret : Text) × (w'.credentials
          ≡ put_row (record w { fresh = w.fresh + 1 }) t name stored secret w.credentials)
        × (w'.faults ≡ [])
        × (got t name (some stored)
            ≡ read_config v (codes "get credentials") (codes ": unmarsaling config") stored)
  stores zero name config text stored w w' calm m s h = absurd (unfold set in cc h)
  stores (suc t) [] config text stored w w' calm m s h = absurd (unfold set in cc h)
  stores (suc t) (c ∷ name) [] text stored w w' calm m s h = absurd (unfold set in cc h)
  stores (suc t) (c ∷ name) (kv ∷ config) text stored w w' calm m s h =
      let secret = config_value (kv ∷ config) (codes "webhook_secret") in
      let w1 = record w { fresh = w.fresh + 1 } in
      let upserted : upsert_row (suc t) (c ∷ name) stored secret w1 ≡ (ok tt, w') =
        sym (run-set t c name kv config text stored w calm m s) ∙ h in
      let written = upserted_world (suc t) (c ∷ name) stored secret w1 w' upserted in
      (secret, ap (λ u. u.credentials) (sym written), ap (λ u. u.faults) (sym written) ∙ calm, refl)

  -- What a successful `Delete` removes.
  deletes :
      (t : ℕ) (name : Text) (w w' : World)
      → w.faults ≡ []
      → delete v t name w ≡ (ok tt, w')
      → (w'.credentials ≡ select (λ q. not (is_credential t name q)) w.credentials)
        × (w'.faults ≡ [])
        × (got t name none ≡ err (wrap (codes "get credentials") (sentinel err_not_found)))
  deletes zero name w w' calm h = absurd (unfold delete in cc h)
  deletes (suc t) [] w w' calm h = absurd (unfold delete in cc h)
  deletes (suc t) (c ∷ name) w w' calm h =
      elim (Option-cases (find (is_credential (suc t) (c ∷ name)) w.credentials)) [
        | inl free ↦
            let run : delete v (suc t) (c ∷ name) w
                ≡ (err (wrap (codes "delete credentials") (sentinel err_not_found)), w) =
              unfold delete query delete_rows in rw (calm, free) refl in
            absurd (cc (run, h))
        | inr (r, there) ↦
            let run : delete v (suc t) (c ∷ name) w ≡ (
              ok tt,
              record w {
                credentials = select (λ q. not (is_credential (suc t) (c ∷ name) q)) w.credentials;
              },
            ) =
              unfold delete query delete_rows in rw (calm, there) refl in
            let left = ap (λ p. p.1) (sym run ∙ h) in
            (ap (λ u. u.credentials) (sym left), ap (λ u. u.faults) (sym left) ∙ calm, refl)
      ]

  -- `Set` writes the map at one key: where the database does not fail, after a successful `Set` a
  -- `Get` of that tenant and provider gives the config, and every other `Get` gives what it gave
  -- before, with or without encryption. The config has no value of its own for the key `_enc`.
  pub get-set :
      (laws : IsCipher v.cipher) (config : Config) (s : IsStored v config) (t : ℕ) (name : Text)
      (w w' : World)
      → config_value config enc_field ≡ []
      → w.faults ≡ []
      → set v t name config w ≡ (ok tt, w')
      → (t' : ℕ) (name' : Text)
      → (get v t' name' w').0
        ≡ (if same_key t name t' name' then ok config else (get v t' name' w).0)
  get-set laws config s t name w w' unmarked calm h t' name' =
      let (stored, made, read) =
        read_config-sealed v laws w.fresh (codes "get credentials") (codes ": unmarsaling config")
          config s unmarked in
      let (secret, rows, calm', gives) =
        stores t name config s.json stored w w' calm s.marshals made h in
      let now_stored =
        stored_at-put_row (record w { fresh = w.fresh + 1 }) t name stored secret w.credentials t'
          name' in
      elim (Bool-cases (same_key t name t' name')) [
        | inl same ↦
            let (a, b) = same_key→eq t name t' name' same in
            rw (got-get t' name' w' calm', rows, now_stored, same, a, b, gives) read
        | inr other ↦
            rw (got-get t' name' w' calm', got-get t' name' w calm, rows, now_stored, other) refl
      ]

  -- `Delete` clears the map at one key: where the database does not fail, after a successful `Delete` a
  -- `Get` of that tenant and provider answers that nothing is found, and every other `Get` gives what
  -- it gave before.
  pub get-delete :
      (t : ℕ) (name : Text) (w w' : World)
      → w.faults ≡ []
      → delete v t name w ≡ (ok tt, w')
      → (t' : ℕ) (name' : Text)
      → (get v t' name' w').0 ≡ (
          if same_key t name t' name'
          then err (wrap (codes "get credentials") (sentinel err_not_found))
          else (get v t' name' w).0)
  get-delete t name w w' calm h t' name' =
      let (rows, calm', gives) = deletes t name w w' calm h in
      let left = stored_at-select w.credentials t name t' name' in
      elim (Bool-cases (same_key t name t' name')) [
        | inl hit ↦
            let (a, b) = same_key→eq t name t' name' hit in
            rw (got-get t' name' w' calm', rows, left, hit, a, b) gives
        | inr miss ↦ rw (got-get t' name' w' calm', got-get t' name' w calm, rows, left, miss) refl
      ]
