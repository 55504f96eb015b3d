-- ===== src/Payment/List/Whole.antt =====
-- What a first page of payments leaves out.
use billax.Prelude.{
  ℕ, zero, suc, ◌≡◌, ◌⊎◌, refl, sym, ap, ◌∙◌, inl, inr, Bool, true, false, not, Option, none, some,
  List, [], ◌∷◌, ◌==◌, arith, Bool-cases, length, take, get_elem?, select, All, codes,
}
use billax.Errors.{err_missing_tenant_id, sentinel}
use billax.Result.{ok}
use billax.Calendar.{Time}
use billax.Plan.List.{Codecs, decode_cursor}
use billax.Payment.{Payment}
use billax.Payment.List.{
  ListPaymentsInput, ListPaymentsResult, is_beyond, is_wanted, insert_payment, sort_payments,
  rows_of, page_limit, capped_limit, payments_with, list_payment_rows, list_payments,
}
use billax.Payment.List.Fetched.{page_limit-capped_limit}
use billax.World.{World, lift, resume_at, check, check_world, wrapped, query}

abbrev pub IsListed : Payment → List Payment → Type 0
IsListed p [] = ⊥
IsListed p (q ∷ rows) = (q ≡ p) ⊎ IsListed p rows

-- A payment that is wanted is listed.
abbrev pub IsCovered : ℕ → ListPaymentsInput → List Payment → Payment → Type 0
IsCovered tenant input page p = (is_wanted tenant input p ≡ false) ⊎ IsListed p page

insert_payment-IsListed :
    (p x : Payment) (rows : List Payment)
    → (x ≡ p) ⊎ IsListed p rows
    → IsListed p (insert_payment x rows)
unfolding insert_payment
insert_payment-IsListed p x [] h = h
insert_payment-IsListed p x (q ∷ rows) h =
    elim (Bool-cases (is_beyond (some (q.created_at, q.id)) x)) [
      | inl later ↦ rw later h
      | inr other ↦
          let rest = insert_payment-IsListed p x rows in
          rw other (elim h [
            | inl same ↦ inr (rest (inl same))
            | inr (inl here) ↦ inl here
            | inr (inr below) ↦ inr (rest (inr below))
          ])
    ]

sort_payments-IsListed :
    (p : Payment) (rows : List Payment) → IsListed p rows → IsListed p (sort_payments rows)
unfolding sort_payments
sort_payments-IsListed p [] h = elim h [ ]
sort_payments-IsListed p (x ∷ rows) (inl same) =
    insert_payment-IsListed p x (sort_payments rows) (inl same)
sort_payments-IsListed p (x ∷ rows) (inr below) =
    insert_payment-IsListed p x (sort_payments rows) (inr (sort_payments-IsListed p rows below))

select-IsListed :
    (f : Payment → Bool) (p : Payment) (rows : List Payment)
    → f p ≡ true
    → IsListed p rows
    → IsListed p (select f rows)
select-IsListed f p [] hit h = elim h [ ]
select-IsListed f p (x ∷ rows) hit (inl same) = rw (ap f same ∙ hit) (inl same)
select-IsListed f p (x ∷ rows) hit (inr below) =
    let rest = select-IsListed f p rows hit below in
    elim (Bool-cases (f x)) [ inl kept ↦ rw kept (inr rest) | inr left ↦ rw left rest ]

All-IsListed :
    (P : Payment → Type 0) (rows : List Payment)
    → ((p : Payment) → IsListed p rows → P p)
    → All P rows
All-IsListed P [] f = tt
All-IsListed P (x ∷ rows) f = (f x (inl refl), All-IsListed P rows (λ p h. f p (inr h)))

length-take-some :
    (rows : List Payment) (i : ℕ) (x : Payment)
    → get_elem? rows i ≡ some x
    → length (take i rows) ≡ i
length-take-some [] i x h = absurd (cc h)
length-take-some (q ∷ rows) zero x h = refl
length-take-some (q ∷ rows) (suc i) x h = omega (arith, length-take-some rows i x h)

take_whole :
    (n : ℕ) (rows : List Payment)
    → get_elem? (take (suc n) rows) n ≡ none
    → take (suc n) rows ≡ rows
take_whole n [] h = refl
take_whole zero (q ∷ rows) h = absurd (cc h)
take_whole (suc n) (q ∷ rows) h = ap (λ qs. q ∷ qs) (take_whole n rows h)

module _ (c : Codecs) (tenant : ℕ) (input : ListPaymentsInput) where
  -- All that the SELECT finds without a cursor and a limit.
  abbrev chosen : List Payment → List Payment
  chosen rows = sort_payments (select (is_beyond none) (select (is_wanted tenant input) rows))

  chosen_covers : (rows : List Payment) → All (IsCovered tenant input (chosen rows)) rows
  chosen_covers rows = All-IsListed (IsCovered tenant input (chosen rows)) rows (λ p h.
      elim (Bool-cases (is_wanted tenant input p)) [
        | inr unwanted ↦ inl unwanted
        | inl wanted ↦ inr (
            sort_payments-IsListed p _ (
              select-IsListed (is_beyond none) p _ refl
                (select-IsListed (is_wanted tenant input) p rows wanted h)))
      ])

  page_covers :
      (limit : ℕ) (rows : List Payment) (last : Option Payment)
      → get_elem? (rows_of tenant input limit none rows) limit ≡ last
      → (length (payments_with c limit (rows_of tenant input limit none rows) last).payments
          ≡ limit)
        ⊎ All
            (IsCovered tenant input
              (payments_with c limit (rows_of tenant input limit none rows) last).payments)
            rows
  unfolding rows_of
  page_covers limit rows (some x) e =
      inl (length-take-some (rows_of tenant input limit none rows) limit x e)
  page_covers limit rows none e = inr (rw (take_whole limit (chosen rows) e) (chosen_covers rows))

  answered_covers :
      (limit : ℕ) (start : Option (Time × ℕ)) (rows : List Payment) (r : ListPaymentsResult)
      → start ≡ none
      → ok (
          payments_with c limit
            (rows_of tenant input limit start rows)
            (get_elem? (rows_of tenant input limit start rows) limit))
        ≡ ok r
      → (length r.payments ≡ limit) ⊎ All (IsCovered tenant input r.payments) rows
  answered_covers limit start rows r first e =
      let fetched = rows_of tenant input limit none rows in
      let same : payments_with c limit fetched (get_elem? fetched limit) ≡ r =
        ap
          (λ s.
            payments_with c limit (rows_of tenant input limit s rows)
              (get_elem? (rows_of tenant input limit s rows) limit))
          (sym first)
        ∙ cc e in
      rw (← same) (page_covers limit rows (get_elem? fetched limit) refl)

  pub list_payments_covers :
      (w : World) (r : ListPaymentsResult)
      → (list_payments c tenant input w).0 ≡ ok r
      → input.cursor ≡ []
      → (length r.payments ≡ capped_limit input.limit)
        ⊎ All (IsCovered tenant input r.payments) w.payments
  unfolding list_payments list_payment_rows query decode_cursor
  list_payments_covers w r e first = rw (← page_limit-capped_limit input.limit) (
      resume_at (check (not (tenant == 0)) (sentinel err_missing_tenant_id) w) _ r e (λ a w1 at1 e1.
        resume_at (lift (decode_cursor c input.cursor) w1) _ r e1 (λ start w2 at2 e2.
          resume_at (wrapped (codes "list payments") query w2) _ r e2 (λ u w3 at3 e3.
            let rows : w1.payments ≡ w.payments =
              sym (ap (λ x. x.1.payments) at1)
              ∙ ap (λ v. v.payments)
                  (check_world (not (tenant == 0)) (sentinel err_missing_tenant_id) w) in
            let started : ok none ≡ ok start =
              ap (decode_cursor c) (sym first) ∙ ap (λ x. x.0) at2 in
            let from_start : start ≡ none = cc started in
            rw (← rows) (
              answered_covers (page_limit (capped_limit input.limit)) start w1.payments r from_start
                e3)))))
