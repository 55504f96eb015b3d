-- ===== src/Payment/List/Fetched.antt =====
-- The rows of a page of payments, by the tests of the program.
use billax.Prelude.{
  ℕ, zero, suc, ◌≤◌, ◌≡◌, refl, inl, inr, Bool, true, false, not, Option, none, some, List, [], ◌∷◌,
  ◌==◌, arith, Bool-cases, length, take, get_elem?, select, all, all-select, all-take, length-take,
  ℤ, pos, negsuc, codes,
}
use billax.Errors.{err_missing_tenant_id, sentinel}
use billax.Result.{ok}
use billax.Calendar.{Time}
use billax.Plan.List.{Codecs, decode_cursor}
use billax.Payment.{Payment}
use billax.Payment.List.{
  ListPaymentsInput, ListPaymentsResult, is_beyond, is_wanted, insert_payment, sort_payments,
  rows_of, page_limit, capped_limit, payments_with, list_payment_rows, list_payments,
}
use billax.World.{World, lift, resume_ok, check, wrapped, query}

module _ (p : Payment → Bool) where
  all-select_other :
      (q : Payment → Bool) (rows : List Payment) → all p rows ≡ true → all p (select q rows) ≡ true
  all-select_other q [] h = refl
  all-select_other q (x ∷ rows) h = elim (Bool-cases (q x)) [
    | inl hit ↦ rw (hit) (ground (arith, h, all-select_other q rows))
    | inr miss ↦ rw miss (all-select_other q rows (ground (arith, h)))
  ]

  all-insert_payment :
      (x : Payment) (rows : List Payment)
      → p x ≡ true
      → all p rows ≡ true
      → all p (insert_payment x rows) ≡ true
  unfolding insert_payment
  all-insert_payment x [] h k = rw h refl
  all-insert_payment x (q ∷ rows) h k =
      elim (Bool-cases (is_beyond (some (q.created_at, q.id)) x)) [
        | inl later ↦ rw (later, h) k
        | inr other ↦ rw other (ground (arith, k, all-insert_payment x rows h))
      ]

  all-sort_payments : (rows : List Payment) → all p rows ≡ true → all p (sort_payments rows) ≡ true
  unfolding sort_payments
  all-sort_payments [] h = refl
  all-sort_payments (x ∷ rows) h =
      all-insert_payment x (sort_payments rows) (ground (arith, h))
        (all-sort_payments rows (ground (arith, h)))

all-rows_of :
    (tenant : ℕ) (input : ListPaymentsInput) (limit : ℕ) (start : Option (Time × ℕ))
    (rows : List Payment)
    → all (is_wanted tenant input) (rows_of tenant input limit start rows) ≡ true
unfolding rows_of
all-rows_of tenant input limit start rows = all-take (is_wanted tenant input) (suc limit) _ (
    all-sort_payments (is_wanted tenant input) _ (
      all-select_other (is_wanted tenant input) (is_beyond start) _
        (all-select (is_wanted tenant input) rows)))

length-get_elem? : (rows : List Payment) (i : ℕ) → get_elem? rows i ≡ none → length rows ≤ i
length-get_elem? [] i h = omega arith
length-get_elem? (x ∷ rows) zero h = absurd (cc h)
length-get_elem? (x ∷ rows) (suc i) h = omega (arith, length-get_elem? rows i h)

-- As the list is sorted: a payment is not beyond the one before it.
abbrev pub IsSorted : List Payment → Type 0
IsSorted [] = Unit
IsSorted (p ∷ []) = Unit
IsSorted (p ∷ q ∷ rows) = (is_beyond (some (p.created_at, p.id)) q ≡ false) × IsSorted (q ∷ rows)

is_beyond_asym :
    (p q : Payment)
    → is_beyond (some (q.created_at, q.id)) p ≡ true
    → is_beyond (some (p.created_at, p.id)) q ≡ false
is_beyond_asym p q h = ground (arith, h)

insert_payment-IsSorted :
    (p : Payment) (rows : List Payment) → IsSorted rows → IsSorted (insert_payment p rows)
unfolding insert_payment
insert_payment-IsSorted p [] h = tt
insert_payment-IsSorted p (q ∷ []) h = elim (Bool-cases (is_beyond (some (q.created_at, q.id)) p)) [
  | inl later ↦ rw later (is_beyond_asym p q later, tt)
  | inr other ↦ rw other (other, tt)
]
insert_payment-IsSorted p (q ∷ r ∷ rows) h =
    let rest = insert_payment-IsSorted p (r ∷ rows) h.1 in
    elim (Bool-cases (is_beyond (some (q.created_at, q.id)) p)) [
      | inl later ↦ rw later (is_beyond_asym p q later, h)
      | inr other ↦ elim (Bool-cases (is_beyond (some (r.created_at, r.id)) p)) [
        | inl later ↦
            let kept : insert_payment p (r ∷ rows) ≡ p ∷ r ∷ rows = rw later refl in
            let below : IsSorted (q ∷ p ∷ r ∷ rows) = (other, (is_beyond_asym p r later, h.1)) in
            rw (other, kept) below
        | inr also ↦
            let kept : insert_payment p (r ∷ rows) ≡ r ∷ insert_payment p rows = rw also refl in
            let below : IsSorted (r ∷ insert_payment p rows) = rw (← kept) rest in
            let whole : IsSorted (q ∷ r ∷ insert_payment p rows) = (h.0, below) in
            rw (other, kept) whole
      ]
    ]

sort_payments-IsSorted : (rows : List Payment) → IsSorted (sort_payments rows)
unfolding sort_payments
sort_payments-IsSorted [] = tt
sort_payments-IsSorted (p ∷ rows) =
    insert_payment-IsSorted p (sort_payments rows) (sort_payments-IsSorted rows)

take-IsSorted : (n : ℕ) (rows : List Payment) → IsSorted rows → IsSorted (take n rows)
take-IsSorted zero rows h = tt
take-IsSorted (suc n) [] h = tt
take-IsSorted (suc zero) (p ∷ []) h = tt
take-IsSorted (suc (suc n)) (p ∷ []) h = tt
take-IsSorted (suc zero) (p ∷ q ∷ rows) h = tt
take-IsSorted (suc (suc n)) (p ∷ q ∷ rows) h = (h.0, take-IsSorted (suc n) (q ∷ rows) h.1)

-- The rows of a page, by the tests of the program.
pub record IsFetched (tenant : ℕ) (input : ListPaymentsInput) (limit : ℕ) (r : ListPaymentsResult)
    : Type 0 where
  pub bounded : length r.payments ≤ limit
  pub wanted : all (is_wanted tenant input) r.payments ≡ true
  pub ordered : IsSorted r.payments

pub page_limit-capped_limit : (n : ℤ) → page_limit (capped_limit n) ≡ capped_limit n
page_limit-capped_limit (negsuc n) = refl
page_limit-capped_limit (pos n) = ground arith

module _ (c : Codecs) (tenant : ℕ) (input : ListPaymentsInput) where
  payments_with-IsFetched :
      (limit : ℕ) (rows : List Payment) (last : Option Payment)
      → get_elem? rows limit ≡ last
      → all (is_wanted tenant input) rows ≡ true
      → IsSorted rows
      → IsFetched tenant input limit (payments_with c limit rows last)
  payments_with-IsFetched limit rows none e wanted ordered = record {
    bounded = length-get_elem? rows limit e;
    wanted = wanted;
    ordered = ordered;
  }
  payments_with-IsFetched limit rows (some last) e wanted ordered = record {
    bounded = length-take limit rows;
    wanted = all-take (is_wanted tenant input) limit rows wanted;
    ordered = take-IsSorted limit rows ordered;
  }

  rows_of-IsSorted :
      (limit : ℕ) (start : Option (Time × ℕ)) (rows : List Payment)
      → IsSorted (rows_of tenant input limit start rows)
  unfolding rows_of
  rows_of-IsSorted limit start rows =
      let chosen = select (is_beyond start) (select (is_wanted tenant input) rows) in
      take-IsSorted (suc limit) (sort_payments chosen) (sort_payments-IsSorted chosen)

  answered-IsFetched :
      (limit : ℕ) (start : Option (Time × ℕ)) (rows : List Payment) (r : ListPaymentsResult)
      → ok (
          payments_with c limit
            (rows_of tenant input limit start rows)
            (get_elem? (rows_of tenant input limit start rows) limit))
        ≡ ok r
      → IsFetched tenant input limit r
  answered-IsFetched limit start rows r e =
      let fetched = rows_of tenant input limit start rows in
      let same : payments_with c limit fetched (get_elem? fetched limit) ≡ r = cc e in
      rw (← same) (
        payments_with-IsFetched limit fetched (get_elem? fetched limit) refl
          (all-rows_of tenant input limit start rows) (rows_of-IsSorted limit start rows))

  pub list_payments-IsFetched :
      (w : World) (r : ListPaymentsResult)
      → (list_payments c tenant input w).0 ≡ ok r
      → IsFetched tenant input (capped_limit input.limit) r
  unfolding list_payments list_payment_rows query
  list_payments-IsFetched w r e = rw (← page_limit-capped_limit input.limit) (
      resume_ok (check (not (tenant == 0)) (sentinel err_missing_tenant_id) w) _ r e (λ a w1 e1.
        resume_ok (lift (decode_cursor c input.cursor) w1) _ r e1 (λ start w2 e2.
          resume_ok (wrapped (codes "list payments") query w2) _ r e2 (λ u w3 e3.
            answered-IsFetched (page_limit (capped_limit input.limit)) start w1.payments r e3))))
