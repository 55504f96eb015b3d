-- ===== src/Plan/List/Cursors.antt =====
-- What becomes of the cursors that a list returns.
use mathlib.Core.List.{append_assoc}
use billax.Prelude.{
  ℕ, ◌≡◌, refl, ap, ◌∙◌, ◌≢◌, ◌⊎◌, inl, inr, Bool, true, not, Option, none, some, List, [], ◌∷◌,
  ◌++◌, arith, ◌==◌, get_elem?, all, Text, codes,
}
use billax.Errors.{err_invalid_input, err_missing_tenant_id, same, sentinel}
use billax.Result.{ok, err}
use billax.World.{World, lift, resume_ok, check, wrapped, query}
use billax.Plan.{Plan}
use billax.Calendar.{Time, two_digits, format_date}
use billax.Plan.List.{
  Codecs, ListPlansInput, ListPlansResult, hour_text, minute_text, format_rfc3339_nano, split_colon,
  encode_cursor, decode_cursor, page_with, page_of, repository_limit, fetched, list_rows,
  service_limit, list_plans,
}

-- What is relied on: decoding inverts encoding, the empty text decodes to itself, and a time in the
-- layout of RFC 3339 has a colon.
pub record IsCodec (c : Codecs) : Type 0 where
  pub inverse : (s : Text) → c.decode_base64 (c.encode_base64 s) ≡ some s
  pub empty : c.decode_base64 [] ≡ some []
  pub needs_colon : (s : Text) → all (λ x. not (x == b':')) s ≡ true → c.parse_rfc3339_nano s ≡ none

abbrev plain : ℕ → Bool
plain x = not (x == b':')

split_colon-append : (s t : Text) → all plain s ≡ true → split_colon (s ++ (b':' ∷ t)) ≡ some (s, t)
unfolding split_colon
split_colon-append [] t h = refl
split_colon-append (x ∷ s) t h = ground (arith, split_colon-append s t)

digits_plain : (n : ℕ) → all plain (two_digits n) ≡ true
digits_plain n = ground arith

hour_text-plain : (t : Time) → all plain (hour_text t) ≡ true
unfolding format_date
hour_text-plain t = ground arith

module _ (c : Codecs) (h : IsCodec c) where
  -- A decoded text whose part before the first colon is no time.
  refused :
      (e s rest : Text)
      → c.decode_base64 e ≡ some (s ++ (b':' ∷ rest))
      → all plain s ≡ true
      → decode_cursor c e ≡ err (sentinel err_invalid_input)
  unfolding decode_cursor
  refused [] [] rest d free = ground (arith, h.empty, d)
  refused [] (y ∷ s) rest d free = ground (arith, h.empty, d)
  refused (x ∷ e) s rest d free = rw (d, split_colon-append s rest free, h.needs_colon s free) refl

  decode_cursor-encode_cursor :
      (p : Plan) → decode_cursor c (encode_cursor c p) ≡ err (sentinel err_invalid_input)
  unfolding encode_cursor format_rfc3339_nano
  decode_cursor-encode_cursor p =
      refused (encode_cursor c p) (hour_text p.created_at) _
        (h.inverse _ ∙ ap some (append_assoc (hour_text p.created_at) (minute_text p.created_at) _))
        (hour_text-plain p.created_at)

  page_with-next_cursor :
      (limit : ℕ) (rows : List Plan) (last : Option Plan)
      → ((page_with c limit rows last).next_cursor ≡ [])
        ⊎ ((p : Plan) × ((page_with c limit rows last).next_cursor ≡ encode_cursor c p))
  page_with-next_cursor limit rows none = inl refl
  page_with-next_cursor limit rows (some p) = inr (p, refl)

  page_of-next_cursor :
      (limit : ℕ) (rows : List Plan) (r : ListPlansResult)
      → ok (page_of c limit rows) ≡ ok r
      → (r.next_cursor ≡ []) ⊎ ((p : Plan) × (r.next_cursor ≡ encode_cursor c p))
  unfolding page_of
  page_of-next_cursor limit rows r e =
      let same : page_with c limit rows (get_elem? rows limit) ≡ r = ground (arith, e) in
      rw (← same) (page_with-next_cursor limit rows (get_elem? rows limit))

  list_plans-next_cursor :
      (tenant : ℕ) (input : ListPlansInput) (w : World) (r : ListPlansResult)
      → (list_plans c tenant input w).0 ≡ ok r
      → (r.next_cursor ≡ []) ⊎ ((p : Plan) × (r.next_cursor ≡ encode_cursor c p))
  unfolding list_plans list_rows query
  list_plans-next_cursor tenant input w r e =
      resume_ok (check (not (tenant == 0)) (sentinel err_missing_tenant_id) w) _ r e (λ a w1 e1.
        resume_ok (lift (decode_cursor c input.cursor) w1) _ r e1 (λ start w2 e2.
          resume_ok (wrapped (codes "list plans") query w2) _ r e2 (λ u w3 e3.
            page_of-next_cursor (repository_limit c (service_limit c input.limit))
              (fetched c tenant input (repository_limit c (service_limit c input.limit)) start w1) r
              e3)))

  -- The cursor of a page that a list returned, given to another list of any tenant, at any time, is
  -- refused as invalid input, before the database is asked.
  pub list_plans-next_cursor_refused :
      (tenant other : ℕ) (input next : ListPlansInput) (w later : World) (r : ListPlansResult)
      → (list_plans c tenant input w).0 ≡ ok r
      → r.next_cursor ≢ []
      → next.cursor ≡ r.next_cursor
      → not (other == 0) ≡ true
      → list_plans c other next later ≡ (err (sentinel err_invalid_input), later)
  unfolding list_plans list_rows
  list_plans-next_cursor_refused tenant other input next w later r listed more same known =
      elim (list_plans-next_cursor tenant input w r listed) [
        | inl end ↦ absurd (more end)
        | inr (p, made) ↦ rw (known, same, made, decode_cursor-encode_cursor p) refl
      ]
