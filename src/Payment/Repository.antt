-- ===== src/Payment/Repository.antt =====
-- internal/payment/repository.go: the statements on the table `payments`.
pub mod Frame
pub mod Outcomes
pub mod Unique
use billax.Prelude.{
  ℕ, ◌+◌, Bool, true, false, ◌&&◌, Option, none, some, List, [], ◌∷◌, ◌++◌, ltb, ◌==◌,
  if◌then◌else◌, take, select, find, Text, codes, text_eq,
}
use billax.Errors.{err_not_found, sentinel, wrap}
use billax.Result.{Result, ok, err}
use billax.Provider.{PaymentMethodInfo}
use billax.Calendar.{at_or_before}
use billax.Payment.{Payment, CreatePaymentResult}
use billax.World.{Row, Act, pure, lift, ◌>>=◌, ◌>>◌, check, wrapped, constraint_error, query}

-- `WHERE tenant_id = $1 AND idempotency_key = $2`
abbrev pub is_keyed : ℕ → Text → Payment → Bool
is_keyed tenant key p = p.tenant_id == tenant && text_eq p.idempotency_key key

abbrev pub has_payment_id : ℕ → Payment → Bool
has_payment_id id p = p.id == id

abbrev found : List Payment → (Payment → Bool) → Result Payment
found rows p = elim (find p rows) [ none ↦ err (sentinel err_not_found) | some r ↦ ok r ]

-- A nil payment method is stored as the JSON text `null`, and that is read back as an empty method.
abbrev pub stored_method : Option PaymentMethodInfo → Option PaymentMethodInfo
stored_method none = some (record { method_type = []; brand = []; last_four = []; bank = [] })
stored_method (some m) = some m

-- `GetByKey`
unfoldable pub get_by_key : ℕ → Text → Act Payment
unfolding query
get_by_key tenant key w =
    (do wrapped (codes "get payment by key") query; lift (found w.payments (is_keyed tenant key))) w

-- `GetByID`
unfoldable pub get_by_id : ℕ → Act Payment
unfolding query
get_by_id id w =
    (do wrapped (codes "get payment by id") query; lift (found w.payments (has_payment_id id))) w

-- The row that the INSERT makes; the uuid of the argument is not used, the database makes its own.
insert : Payment → Act CreatePaymentResult
insert p w =
    let p' = record p {
      id = w.fresh;
      payment_method = stored_method p.payment_method;
      created_at = w.now;
      updated_at = w.now;
    } in
    (
      ok (record { payment = p'; created = true }),
      record w { payments = w.payments ++ p' ∷ []; fresh = w.fresh + 1 },
    )

-- `ON CONFLICT DO NOTHING` returned no row.
fetch_existing : Payment → Act CreatePaymentResult
unfolding get_by_key
fetch_existing p = do
  existing ←
      wrapped (codes "fetch existing payment on conflict")
        (get_by_key p.tenant_id p.idempotency_key)
  pure (record { payment = existing; created = false })

abbrev pub references : ℕ → List Row → Bool
references id rows = elim (find (λ r. r.sub.id == id) rows) [ none ↦ false | some r ↦ true ]

-- The unique constraint on (tenant_id, idempotency_key) decides; the foreign key on `subscriptions` is
-- checked for a row that is inserted.
insert_on_conflict : Option Payment → Payment → Act CreatePaymentResult
unfolding insert fetch_existing
insert_on_conflict none p w =
    (do
      check (references p.subscription_id w.subs) (wrap (codes "create payment") constraint_error)
      insert p)
      w
insert_on_conflict (some taken) p w = fetch_existing p w

insert_row : Payment → Act CreatePaymentResult
unfolding insert_on_conflict
insert_row p w = insert_on_conflict (find (is_keyed p.tenant_id p.idempotency_key) w.payments) p w

-- `Create`
unfoldable pub create : Payment → Act CreatePaymentResult
unfolding query insert_row
create p = do wrapped (codes "create payment") query; insert_row p

-- `ORDER BY created_at DESC`
insert_latest : Payment → List Payment → List Payment
insert_latest p [] = p ∷ []
insert_latest p (q ∷ qs) =
    let later = insert_latest p qs in
    if at_or_before q.created_at p.created_at then p ∷ q ∷ qs else q ∷ later

latest_first : List Payment → List Payment
unfolding insert_latest
latest_first [] = []
latest_first (p ∷ ps) = insert_latest p (latest_first ps)

-- The `LIMIT` of a list, for a limit that is not negative.
unfoldable pub capped : ℕ → ℕ → ℕ
capped default limit = if limit == 0 then default else if ltb 100 limit then 100 else limit

-- `ListBySubscription`
unfoldable pub list_by_subscription : ℕ → ℕ → Act (List Payment)
unfolding query latest_first capped
list_by_subscription id limit w =
    (do
      wrapped (codes "list by subscription") query
      pure (
          take (capped 10 limit) (latest_first (select (λ p. p.subscription_id == id) w.payments))))
      w
