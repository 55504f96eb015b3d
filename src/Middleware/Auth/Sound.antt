-- ===== src/Middleware/Auth/Sound.antt =====
-- Which requests are handed on, and for which tenant.
use billax.Prelude.{
  ℕ, ◌≤◌, ◌≡◌, ap, ◌∙◌, inl, inr, true, false, some, [], ◌∷◌, ◌++◌, arith, Option-cases, length,
  take, find, Text, codes, text_eq→eq,
}
use billax.Calendar.{Time}
use billax.Middleware.Auth.{
  ApiKey, KeyStore, authenticated, split_space, prefix_len, is_match, is_expired, check_key,
  check_token, authenticate,
}

split_space_lem : (s : Text) (p : Text × Text) → split_space s ≡ some p → s ≡ p.0 ++ (b' ' ∷ p.1)
unfolding split_space
split_space_lem [] p h = cc
split_space_lem (c ∷ s) p h = elim (Option-cases (split_space s)) [
  | inl none' ↦ ground (arith, none')
  | inr (q, e) ↦ ground (arith, e, split_space_lem s q e)
]

module _ (hash : Text → Text → Text) (store : KeyStore) (now : Time) (tenant : ℕ) where
  -- A row that lets a token in.
  pub record IsGranted (token : Text) (k : ApiKey) : Type 0 where
    pub active : k.is_active ≡ true
    pub fresh : is_expired k now ≡ false
    pub verified : hash token (take prefix_len token) ≡ k.key_hash
    pub of_tenant : k.tenant_id ≡ tenant

  check_key_sound :
      (token : Text) (k : ApiKey)
      → check_key hash store now token k ≡ authenticated tenant
      → IsGranted token k
  unfolding check_key
  check_key_sound token k h = record {
    active = ground arith;
    fresh = ground arith;
    verified = text_eq→eq _ _ (ground arith);
    of_tenant = ground arith;
  }

  check_token_sound :
      (token : Text)
      → check_token hash store now token ≡ authenticated tenant
      → (prefix_len ≤ length token)
        × ((k : ApiKey) × (find (is_match (take prefix_len token)) store.keys ≡ some k)
            × IsGranted token k)
  unfolding check_token
  check_token_sound token h =
      elim (Option-cases (find (is_match (take prefix_len token)) store.keys)) [
        | inl none' ↦ ground (arith, none')
        | inr (k, e) ↦ (ground (arith, e), (k, e, check_key_sound token k (ground (arith, e))))
      ]

  -- A request is handed on for a tenant only if its header is `Bearer `, a token of 12 bytes or more, and
  -- a stored key with the token's prefix is active, has not expired, has the hash of the token, and is
  -- that tenant's.
  pub authenticate_sound :
      (header : Text)
      → authenticate hash store now header ≡ authenticated tenant
      → (token : Text) × (k : ApiKey) × (header ≡ codes "Bearer " ++ token)
        × (prefix_len ≤ length token)
        × (find (is_match (take prefix_len token)) store.keys ≡ some k)
        × IsGranted token k
  unfolding authenticate
  authenticate_sound [] h = cc
  authenticate_sound (c ∷ header) h = elim (Option-cases (split_space (c ∷ header))) [
    | inl none' ↦ cc
    | inr ((scheme, token), e) ↦
        let bearer : scheme ≡ codes "Bearer" = text_eq→eq _ _ (ground (arith, e)) in
        let checked = check_token_sound token (ground (arith, e)) in
        (
          token,
          checked.1.0,
          split_space_lem (c ∷ header) (scheme, token) e ∙ ap (λ x. x ++ (b' ' ∷ token)) bearer,
          checked.0,
          checked.1.1,
          checked.1.2,
        )
  ]
