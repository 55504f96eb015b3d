-- ===== src/Subscription/Repository.antt =====
-- internal/subscription/repository.go: the statements on the table `subscriptions` that
-- create, read and change a row.
pub mod Statements
use billax.Prelude.{
  ℕ, ◌+◌, Bool, true, false, ◌&&◌, ◌||◌, Option, none, some, List, [], ◌∷◌, ◌++◌, ◌==◌,
  if◌then◌else◌, find, modify, fits_int32, Text, codes, text_eq,
}
use billax.Errors.{err_not_found, sentinel, wrap}
use billax.Result.{Result, ok, err}
use billax.Calendar.{Time}
use billax.Subscription.{
  SubscriptionStatus, canceled, other_status, Subscription, UpdateSubscriptionInput, CreateResult,
}
use billax.Subscription.Periods.{is_known}
use billax.World.{Row, Act, pure, lift, ◌>>=◌, ◌>>◌, check, wrapped, constraint_error, query}

abbrev is_stored_status : SubscriptionStatus → Bool
is_stored_status (other_status t) = false
is_stored_status _ = true

abbrev is_given : Option (List Text) → Bool
is_given none = false
is_given (some tags) = true

-- The CHECK and NOT NULL constraints of the table, and the range of an INT column.
unfoldable pub row_ok : Subscription → Bool
row_ok s =
    is_stored_status s.status
    && is_known s.interval
    && fits_int32 s.interval_count
    && is_given s.tags

-- The JSON text that is stored: an empty text and `null` are stored as NULL.
unfoldable pub stored_metadata : Option Text → Option Text
unfolding text_eq
stored_metadata none = none
stored_metadata (some m) = if text_eq m [] || text_eq m (codes "null") then none else some m

-- `WHERE tenant_id = $1 AND idempotency_key = $2`
abbrev pub has_key : ℕ → Text → Row → Bool
has_key tenant key r = r.sub.tenant_id == tenant && text_eq r.key key

abbrev pub has_id : ℕ → Row → Bool
has_id id r = r.sub.id == id

abbrev pub has_subscription_key : ℕ → Row → Bool
has_subscription_key key r = r.sub.subscription_key == key

abbrev found : List Row → (Row → Bool) → Result Subscription
found rows p = elim (find p rows) [ none ↦ err (sentinel err_not_found) | some r ↦ ok r.sub ]

-- The INSERT of `Create`, which fails on a row that the constraints refuse.
insert : Subscription → Text → Act CreateResult
insert s key w =
    let s' = record s {
      id = w.fresh;
      metadata = stored_metadata s.metadata;
      payments = [];
      created_at = w.now;
      updated_at = w.now;
    } in
    (
      ok (record { subscription = s'; created = true }),
      record w { subs = w.subs ++ record { sub = s'; key = key } ∷ []; fresh = w.fresh + 1 },
    )

-- The branch of `Create` on the unique constraint on (tenant_id, idempotency_key).
fetch_duplicate : Subscription → Act CreateResult
unfolding query
fetch_duplicate s = do
  wrapped (codes "fetching duplicate subscription") query
  pure (record { subscription = s; created = false })

abbrev insert_or_fetch : Option Row → Subscription → Text → Act CreateResult
insert_or_fetch none s key = insert s key
insert_or_fetch (some r) s key = fetch_duplicate r.sub

-- `Create`
unfoldable pub create : Subscription → Text → Act CreateResult
unfolding query insert fetch_duplicate
create s key w =
    (do
      wrapped (codes "create subscription") query
      check (row_ok s) (wrap (codes "create subscription") constraint_error)
      insert_or_fetch (find (has_key s.tenant_id key) w.subs) s key)
      w

-- `GetByKey`
unfoldable pub get_by_key : ℕ → Act Subscription
unfolding query
get_by_key key w =
    (do
      wrapped (codes "get subscription by key") query
      lift (found w.subs (has_subscription_key key)))
      w

-- `GetByID`
unfoldable pub get_by_id : ℕ → Act Subscription
unfolding query
get_by_id id w =
    (do wrapped (codes "get subscription by id") query; lift (found w.subs (has_id id))) w

abbrev or_old {ℓ} : {A : Type ℓ} → Option A → A → A
or_old none old = old
or_old (some new) old = new

abbrev patched_metadata : Option Text → Option Text → Option Text
patched_metadata none old = old
patched_metadata (some m) old = stored_metadata (some m)

-- The SET clause of `Update`: a field of the input that is nil is left alone.
unfoldable pub apply_update : UpdateSubscriptionInput → Time → Subscription → Subscription
unfolding stored_metadata
apply_update input now s = record s {
  status = or_old input.status s.status;
  cancel_at_period_end = or_old input.cancel_at_period_end s.cancel_at_period_end;
  tags = if input.tags_provided then input.tags else s.tags;
  amount = or_old input.amount s.amount;
  metadata = patched_metadata input.metadata s.metadata;
  updated_at = now;
}

-- The rows after `UPDATE … WHERE id = $1`.
abbrev pub change_row : ℕ → (Subscription → Subscription) → List Row → List Row
change_row id f rows = modify (has_id id) (λ r. record r { sub = f r.sub }) rows

-- `UPDATE … SET … WHERE id = $1 RETURNING …`
unfoldable pub update_returning : Text → ℕ → (Subscription → Subscription) → Act Subscription
unfolding query row_ok
update_returning what id f w =
    (do
      wrapped what query
      s ← lift (found w.subs (has_id id))
      check (row_ok (f s)) (wrap what constraint_error)
      λ w'. (ok (f s), record w' { subs = change_row id f w'.subs }))
      w

-- `Update`
unfoldable pub update : ℕ → UpdateSubscriptionInput → Act Subscription
unfolding update_returning apply_update
update id input w = update_returning (codes "update subscription") id (apply_update input w.now) w

-- The SET clause of `Cancel`.
unfoldable pub apply_cancel : Bool → Time → Subscription → Subscription
apply_cancel true now s = record s { cancel_at_period_end = true; updated_at = now }
apply_cancel false now s = record s {
  status = canceled;
  canceled_at = some now;
  cancel_at_period_end = false;
  updated_at = now;
}

-- `Cancel`
unfoldable pub cancel : ℕ → Bool → Act Subscription
unfolding update_returning apply_cancel
cancel id at_period_end w =
    update_returning (codes "cancel subscription") id (apply_cancel at_period_end w.now) w

-- `result.RowsAffected() == 0`
abbrev is_affected : List Row → ℕ → Bool
is_affected rows id = elim (find (has_id id) rows) [ none ↦ false | some r ↦ true ]

-- An `Exec` of `UPDATE … WHERE id = …`
unfoldable pub update_exec : Text → ℕ → (Subscription → Subscription) → Act (Unit {0})
unfolding query row_ok
update_exec what id f w =
    (do
      wrapped what query
      check (is_affected w.subs id) (sentinel err_not_found)
      s ← lift (found w.subs (has_id id))
      check (row_ok (f s)) (wrap what constraint_error)
      λ w'. (ok tt, record w' { subs = change_row id f w'.subs }))
      w

unfoldable pub with_status : SubscriptionStatus → Time → Subscription → Subscription
with_status status now s = record s { status = status; updated_at = now }

-- `UpdateStatus`
unfoldable pub update_status : ℕ → SubscriptionStatus → Act (Unit {0})
unfolding update_exec with_status
update_status id status w =
    update_exec (codes "update subscription status") id (with_status status w.now) w

unfoldable pub with_period : Time → Time → Time → Subscription → Subscription
with_period start end now s = record s {
  current_period_start = start;
  current_period_end = end;
  updated_at = now;
}

-- `AdvancePeriod`
unfoldable pub advance_period : ℕ → Time → Time → Act (Unit {0})
unfolding update_exec with_period
advance_period id start end w =
    update_exec (codes "advance subscription period") id (with_period start end w.now) w
