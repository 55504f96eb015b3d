-- ===== src/Payment/Repository/Outcomes.antt =====
-- What the INSERT of a payment does when the database answers.
use billax.Prelude.{◌+◌, ◌≡◌, true, false, none, some, [], ◌∷◌, ◌++◌, arith, find}
use billax.Result.{ok}
use billax.Payment.{Payment}
use billax.Payment.Repository.{is_keyed, stored_method, references, create}
use billax.World.{World}

-- The row that the INSERT makes of a payment.
unfoldable pub inserted : Payment → World → Payment
inserted p w = record p {
  id = w.fresh;
  payment_method = stored_method p.payment_method;
  created_at = w.now;
  updated_at = w.now;
}

module _ (p : Payment) (w : World) (up : w.faults ≡ []) where
  pub create-new :
      find (is_keyed p.tenant_id p.idempotency_key) w.payments ≡ none
      → references p.subscription_id w.subs ≡ true
      → create p w ≡ (
        ok (record { payment = inserted p w; created = true }),
        record w { payments = w.payments ++ inserted p w ∷ []; fresh = w.fresh + 1 },
      )
  unfolding create inserted
  create-new new there = rw (up, new, there)

  -- A key that is taken: the stored payment comes back, and nothing is written.
  pub create-taken :
      {old : Payment}
      → find (is_keyed p.tenant_id p.idempotency_key) w.payments ≡ some old
      → create p w ≡ (ok (record { payment = old; created = false }), w)
  unfolding create
  create-taken taken = ground arith
