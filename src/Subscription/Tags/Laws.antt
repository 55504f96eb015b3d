-- ===== src/Subscription/Tags/Laws.antt =====
-- What the normalised tags are: the distinct non-blank folded tags, each once.
use billax.Prelude.{
  ◌≡◌, refl, ap, inl, inr, Bool, true, false, not, ◌&&◌, ◌||◌, none, some, List, [], ◌∷◌, ◌++◌,
  arith, Bool-cases, All, Text, text_eq, Unicode, fold_case, text_eq→eq, text_eq_symm,
}
use billax.Validation.{contains}
use billax.Subscription.Tags.{slice_of, is_new, normalize_from, normalize_tags}

-- No tag stands twice.
abbrev pub distinct : List Text → Bool
distinct [] = true
distinct (x ∷ xs) = not (contains xs x) && distinct xs

contains-append :
    (xs : List Text) (y v : Text) → contains (xs ++ y ∷ []) v ≡ (contains xs v || text_eq v y)
unfolding contains
contains-append [] y v = ground arith
contains-append (x ∷ xs) y v = ground (arith, contains-append xs y v)

distinct-append :
    (xs : List Text) (y : Text)
    → distinct xs ≡ true
    → contains xs y ≡ false
    → distinct (xs ++ y ∷ []) ≡ true
unfolding contains
distinct-append [] y h k = refl
distinct-append (x ∷ xs) y h k =
    ground (arith, distinct-append xs y, contains-append xs y x, text_eq_symm x y)

contains-eq : (xs : List Text) (s t : Text) → text_eq s t ≡ true → contains xs s ≡ contains xs t
contains-eq xs s t h = ap (contains xs) (text_eq→eq s t h)

blank-eq : (s t : Text) → text_eq s t ≡ true → text_eq s [] ≡ text_eq t []
blank-eq s t h = ap (λ x. text_eq x []) (text_eq→eq s t h)

module _ (u : Unicode) where
  -- One of the tags folds to t.
  abbrev pub folds_to : List Text → Text → Bool
  folds_to [] t = false
  folds_to (tag ∷ rest) t = text_eq t (fold_case u tag) || folds_to rest t

  distinct-normalize_from :
      (seen tags : List Text) → distinct seen ≡ true → distinct (normalize_from u seen tags) ≡ true
  unfolding normalize_from
  distinct-normalize_from seen [] h = h
  distinct-normalize_from seen (tag ∷ rest) h =
      let lower : Text = fold_case u tag in
      elim (Bool-cases (is_new u seen lower)) [
        | inl new ↦ rw new (
            distinct-normalize_from (seen ++ lower ∷ []) rest
              (distinct-append seen lower h (ground arith)))
        | inr old ↦ rw old (distinct-normalize_from seen rest h)
      ]

  contains-normalize_from :
      (seen tags : List Text) (t : Text)
      → contains (normalize_from u seen tags) t
        ≡ (contains seen t || (not (text_eq t []) && folds_to tags t))
  unfolding normalize_from
  contains-normalize_from seen [] t = ground arith
  contains-normalize_from seen (tag ∷ rest) t =
      let lower : Text = fold_case u tag in
      elim (Bool-cases (is_new u seen lower)) [
        | inl new ↦
            rw
              (
                new,
                contains-normalize_from (seen ++ lower ∷ []) rest t,
                contains-append seen lower t,
              )
              (ground (arith, blank-eq t lower))
        | inr old ↦
            rw (old, contains-normalize_from seen rest t)
              (ground (arith, blank-eq t lower, contains-eq seen t lower))
      ]

  normalize_from-eq :
      (tags out : List Text) → normalize_tags u tags ≡ some out → normalize_from u [] tags ≡ out
  unfolding normalize_tags normalize_from
  normalize_from-eq [] out h = ground arith
  normalize_from-eq (tag ∷ rest) out h = slice-eq (normalize_from u [] (tag ∷ rest)) h
    where
      slice-eq : (xs : List Text) → slice_of xs ≡ some out → xs ≡ out
      slice-eq [] p = cc
      slice-eq (x ∷ xs) p = ground arith

  -- When `normalizeTags` returns tags, they are distinct, and a text is among them exactly when it is
  -- not empty and some input tag, trimmed and in lower case, is that text.
  pub normalize_tags_lem :
      (tags out : List Text)
      → normalize_tags u tags ≡ some out
      → (distinct out ≡ true)
        × ((t : Text) → contains out t ≡ (not (text_eq t []) && folds_to tags t))
  unfolding text_eq contains
  normalize_tags_lem tags out h =
      let e : normalize_from u [] tags ≡ out = normalize_from-eq tags out h in
      (
        rw (← e) (distinct-normalize_from [] tags refl),
        λ t. rw (← e) (contains-normalize_from [] tags t),
      )

  normalize_from-blank :
      (seen tags : List Text)
      → All (λ tag. fold_case u tag ≡ []) tags
      → normalize_from u seen tags ≡ seen
  unfolding normalize_from text_eq
  normalize_from-blank seen [] h = refl
  normalize_from-blank seen (tag ∷ rest) h = rw (h.0) (normalize_from-blank seen rest h.1)

  -- Tags that are all blank, at least one of them, normalise to the nil slice and not to an empty one.
  pub normalize_tags-blank :
      (tag : Text) (rest : List Text)
      → All (λ s. fold_case u s ≡ []) (tag ∷ rest)
      → normalize_tags u (tag ∷ rest) ≡ none
  unfolding normalize_tags
  normalize_tags-blank tag rest h = rw (normalize_from-blank [] (tag ∷ rest) h)
