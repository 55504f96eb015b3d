-- ===== src/Payment/List/Wanted.antt =====
-- Which payments a list is asked for.
use billax.Prelude.{
  ap, ◌∙◌, text_eq, text_eq_refl, ℕ, ◌≡◌, ◌⊎◌, refl, Text, text_eq→eq, ==_iff, inl, inr, true,
  Option, none, some, List, [], ◌∷◌, arith, Bool-cases,
}
use billax.Payment.{PaymentStatus, pending, succeeded, failed, refunded, Payment}
use billax.Payment.List.{
  ListPaymentsInput, is_wanted, status_eq, is_one_of, has_status, has_provider,
}

-- What is asked for: payments of the tenant, of the provider and of one of the statuses, where
-- these are asked for.
abbrev pub OfProvider : Option Text → Payment → Type 0
OfProvider none p = Unit
OfProvider (some name) p = p.provider_name ≡ name

abbrev pub IsAmong : List PaymentStatus → PaymentStatus → Type 0
IsAmong [] status = ⊥
IsAmong (s ∷ ss) status = (s ≡ status) ⊎ IsAmong ss status

abbrev pub OfStatus : List PaymentStatus → Payment → Type 0
OfStatus [] p = Unit
OfStatus (s ∷ ss) p = IsAmong (s ∷ ss) p.status

pub record IsWanted (tenant : ℕ) (input : ListPaymentsInput) (p : Payment) : Type 0 where
  pub of_tenant : p.tenant_id ≡ tenant
  pub of_provider : OfProvider input.provider_name p
  pub of_status : OfStatus input.statuses p

status_eq→eq : (a b : PaymentStatus) → status_eq a b ≡ true → a ≡ b
status_eq→eq pending pending h = refl
status_eq→eq pending succeeded h = absurd (cc h)
status_eq→eq pending failed h = absurd (cc h)
status_eq→eq pending refunded h = absurd (cc h)
status_eq→eq succeeded pending h = absurd (cc h)
status_eq→eq succeeded succeeded h = refl
status_eq→eq succeeded failed h = absurd (cc h)
status_eq→eq succeeded refunded h = absurd (cc h)
status_eq→eq failed pending h = absurd (cc h)
status_eq→eq failed succeeded h = absurd (cc h)
status_eq→eq failed failed h = refl
status_eq→eq failed refunded h = absurd (cc h)
status_eq→eq refunded pending h = absurd (cc h)
status_eq→eq refunded succeeded h = absurd (cc h)
status_eq→eq refunded failed h = absurd (cc h)
status_eq→eq refunded refunded h = refl

is_one_of-IsAmong :
    (ss : List PaymentStatus) (s : PaymentStatus) → is_one_of ss s ≡ true → IsAmong ss s
is_one_of-IsAmong [] s h = absurd (cc h)
is_one_of-IsAmong (x ∷ ss) s h = elim (Bool-cases (status_eq x s)) [
  | inl here ↦ inl (status_eq→eq x s here)
  | inr other ↦ inr (is_one_of-IsAmong ss s (ground (arith, other, h)))
]

has_status-OfStatus :
    (ss : List PaymentStatus) (p : Payment) → has_status ss p ≡ true → OfStatus ss p
has_status-OfStatus [] p h = tt
has_status-OfStatus (s ∷ ss) p h = is_one_of-IsAmong (s ∷ ss) p.status h

has_provider-OfProvider :
    (name : Option Text) (p : Payment) → has_provider name p ≡ true → OfProvider name p
has_provider-OfProvider none p h = tt
has_provider-OfProvider (some name) p h = text_eq→eq p.provider_name name h

pub is_wanted-IsWanted :
    (tenant : ℕ) (input : ListPaymentsInput) (p : Payment)
    → is_wanted tenant input p ≡ true
    → IsWanted tenant input p
unfolding is_wanted
is_wanted-IsWanted tenant input p h = record {
  of_tenant = (==_iff p.tenant_id tenant).0 (ground (arith, h));
  of_provider = has_provider-OfProvider input.provider_name p (ground (arith, h));
  of_status = has_status-OfStatus input.statuses p (ground (arith, h));
}

status_eq_refl : (s : PaymentStatus) → status_eq s s ≡ true
status_eq_refl pending = refl
status_eq_refl succeeded = refl
status_eq_refl failed = refl
status_eq_refl refunded = refl

IsAmong-is_one_of :
    (ss : List PaymentStatus) (s : PaymentStatus) → IsAmong ss s → is_one_of ss s ≡ true
IsAmong-is_one_of [] s h = elim h [ ]
IsAmong-is_one_of (x ∷ ss) s (inl same) = rw (same, status_eq_refl s) refl
IsAmong-is_one_of (x ∷ ss) s (inr later) = ground (arith, IsAmong-is_one_of ss s later)

OfStatus-has_status :
    (ss : List PaymentStatus) (p : Payment) → OfStatus ss p → has_status ss p ≡ true
OfStatus-has_status [] p h = refl
OfStatus-has_status (s ∷ ss) p h = IsAmong-is_one_of (s ∷ ss) p.status h

OfProvider-has_provider :
    (name : Option Text) (p : Payment) → OfProvider name p → has_provider name p ≡ true
OfProvider-has_provider none p h = refl
OfProvider-has_provider (some name) p h = ap (λ t. text_eq t name) h ∙ text_eq_refl name

pub IsWanted-is_wanted :
    (tenant : ℕ) (input : ListPaymentsInput) (p : Payment)
    → IsWanted tenant input p
    → is_wanted tenant input p ≡ true
unfolding is_wanted
IsWanted-is_wanted tenant input p h =
    rw
      (
        (==_iff p.tenant_id tenant).1 h.of_tenant,
        OfProvider-has_provider input.provider_name p h.of_provider,
        OfStatus-has_status input.statuses p h.of_status,
      )
      refl
