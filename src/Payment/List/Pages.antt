-- ===== src/Payment/List/Pages.antt =====
-- What a page of payments holds.
use billax.Prelude.{
  ltb, ◌≢◌, ℕ, zero, suc, ◌≤◌, ◌≡◌, ◌⊎◌, refl, All, Text, inl, inr, true, false, some, List, [],
  ◌∷◌, arith, Bool-cases, length, all, ℤ, pos, negsuc,
}
use billax.Result.{ok}
use billax.Calendar.{before}
use billax.Plan.List.{Codecs}
use billax.Payment.{Payment}
use billax.Payment.List.{
  ListPaymentsInput, ListPaymentsResult, is_beyond, is_wanted, capped_limit, list_payments,
}
use billax.World.{World}
use billax.Payment.List.Wanted.{IsWanted, is_wanted-IsWanted, IsWanted-is_wanted}
use billax.Payment.List.Whole.{IsListed, IsCovered, list_payments_covers}
use billax.Payment.List.Fetched.{IsSorted, list_payments-IsFetched}

-- A positive limit holds, up to 100; in place of any other, 20 does.
abbrev pub IsWithin : ℤ → ℕ → Type 0
IsWithin (pos (suc n)) len = (len ≤ suc n) × (len ≤ 100)
IsWithin limit len = len ≤ 20

-- A payment was made before another, or at the same time and has no greater id.
abbrev pub IsNotLater : Payment → Payment → Type 0
IsNotLater q p =
    (before q.created_at p.created_at ≡ true) ⊎ ((q.created_at ≡ p.created_at) × (q.id ≤ p.id))

abbrev pub IsLatestFirst : List Payment → Type 0
IsLatestFirst [] = Unit
IsLatestFirst (p ∷ []) = Unit
IsLatestFirst (p ∷ q ∷ rows) = IsNotLater q p × IsLatestFirst (q ∷ rows)

-- A page has as many payments as it can hold.
abbrev pub IsFull : ℤ → ℕ → Type 0
IsFull (pos (suc n)) len = (len ≡ suc n) ⊎ (len ≡ 100)
IsFull limit len = len ≡ 20

-- A page of the stored payments; a first page that is not full lists all that are wanted.
pub record IsPage (tenant : ℕ) (input : ListPaymentsInput) (rows : List Payment)
    (r : ListPaymentsResult) : Type 0 where
  pub bounded : IsWithin input.limit (length r.payments)
  pub wanted : All (IsWanted tenant input) r.payments
  pub ordered : IsLatestFirst r.payments
  pub whole :
      (input.cursor ≢ [])
      ⊎ IsFull input.limit (length r.payments)
      ⊎ All (λ p. (¬ IsWanted tenant input p) ⊎ IsListed p r.payments) rows

all-IsWanted :
    (tenant : ℕ) (input : ListPaymentsInput) (rows : List Payment)
    → all (is_wanted tenant input) rows ≡ true
    → All (IsWanted tenant input) rows
all-IsWanted tenant input [] h = tt
all-IsWanted tenant input (p ∷ rows) h = (
  is_wanted-IsWanted tenant input p (ground (arith, h)),
  all-IsWanted tenant input rows (ground (arith, h)),
)

covered :
    (tenant : ℕ) (input : ListPaymentsInput) (page rows : List Payment)
    → All (IsCovered tenant input page) rows
    → All (λ p. (¬ IsWanted tenant input p) ⊎ IsListed p page) rows
covered tenant input page [] h = tt
covered tenant input page (p ∷ rows) h = (
  elim h.0 [
    | inl unwanted ↦ inl (λ wanted. cc (unwanted, IsWanted-is_wanted tenant input p wanted))
    | inr listed ↦ inr listed
  ],
  covered tenant input page rows h.1,
)

full : (limit : ℤ) (len : ℕ) → len ≡ capped_limit limit → IsFull limit len
full (pos zero) len h = h
full (pos (suc n)) len h = elim (Bool-cases (ltb 100 (suc n))) [
  | inl above ↦ inr (ground (arith, above, h))
  | inr below ↦ inl (ground (arith, below, h))
]
full (negsuc n) len h = h

no_cursor : (t : Text) → (t ≡ []) ⊎ (t ≢ [])
no_cursor [] = inl refl
no_cursor (c ∷ s) = inr (λ e. cc e)

within : (limit : ℤ) (len : ℕ) → len ≤ capped_limit limit → IsWithin limit len
within (pos zero) len h = h
within (pos (suc n)) len h = (ground (arith, h), ground (arith, h))
within (negsuc n) len h = h

is_beyond-IsNotLater :
    (p q : Payment) → is_beyond (some (p.created_at, p.id)) q ≡ false → IsNotLater q p
is_beyond-IsNotLater p q h = elim (Bool-cases (before q.created_at p.created_at)) [
  | inl earlier ↦ inl earlier
  | inr not_earlier ↦
      let same_day : q.created_at.day ≡ p.created_at.day = ground (arith, h, not_earlier) in
      let same_nanos : q.created_at.nanos ≡ p.created_at.nanos = ground (arith, h, not_earlier) in
      let same_time : q.created_at ≡ p.created_at = cc (same_day, same_nanos) in
      inr (same_time, ground (arith, h, not_earlier))
]

IsSorted-IsLatestFirst : (rows : List Payment) → IsSorted rows → IsLatestFirst rows
IsSorted-IsLatestFirst [] h = tt
IsSorted-IsLatestFirst (p ∷ []) h = tt
IsSorted-IsLatestFirst (p ∷ q ∷ rows) h =
    (is_beyond-IsNotLater p q h.0, IsSorted-IsLatestFirst (q ∷ rows) h.1)

module _ (c : Codecs) (tenant : ℕ) (input : ListPaymentsInput) where
  -- A list of payments that succeeds answers with a page. It holds at most 20 payments if the limit is
  -- not positive, else at most as many as the limit and at most 100. Each is of the tenant, and of the
  -- provider and of one of the statuses where these are asked for. The latest come first, and of those
  -- of one time the greatest id. Without a cursor, a page that is not full lists every stored payment
  -- that is asked for.
  pub list_payments-IsPage :
      (w : World) (r : ListPaymentsResult)
      → (list_payments c tenant input w).0 ≡ ok r
      → IsPage tenant input w.payments r
  list_payments-IsPage w r e =
      let f = list_payments-IsFetched c tenant input w r e in
      record {
        bounded = within input.limit (length r.payments) f.bounded;
        wanted = all-IsWanted tenant input r.payments f.wanted;
        ordered = IsSorted-IsLatestFirst r.payments f.ordered;
        whole = elim (no_cursor input.cursor) [
          | inr given ↦ inl given
          | inl first ↦ elim (list_payments_covers c tenant input w r e first) [
            | inl as_many ↦ inr (inl (full input.limit (length r.payments) as_many))
            | inr all_there ↦ inr (inr (covered tenant input r.payments w.payments all_there))
          ]
        ];
      }
