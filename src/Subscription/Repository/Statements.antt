-- ===== src/Subscription/Repository/Statements.antt =====
-- What the statements on `subscriptions` do to the row of one subscription. The row of an id is
-- looked up by `find`; where ids are unique that is the row.
use billax.Prelude.{
  ℕ, ◌+◌, ◌≡◌, refl, ◌≢◌, ◌⊎◌, inl, inr, true, false, Option, none, some, List, [], ◌∷◌, ◌++◌,
  arith, ◌==◌, Bool-cases, find, All, Text,
}
use billax.Calendar.{Time}
use billax.Result.{ok}
use billax.Subscription.{SubscriptionStatus, Subscription}
use billax.Subscription.Repository.{
  row_ok, stored_metadata, has_key, has_id, has_subscription_key, insert, fetch_duplicate, create,
  get_by_key, get_by_id, change_row, update_returning, update_exec, with_status, update_status,
  with_period, advance_period,
}
use billax.World.{Row, World, query}

abbrev pub row_of : ℕ → World → Option Row
row_of id w = find (has_id id) w.subs

-- Ids are a primary key.
abbrev pub UniqueIds : List Row → Type 0
UniqueIds [] = Unit
UniqueIds (x ∷ xs) = All (λ y. y.sub.id ≢ x.sub.id) xs × UniqueIds xs

module _ (f : Subscription → Subscription) (keeps : (s : Subscription) → (f s).id ≡ s.id) where
  find-change_row_ne :
      (id j : ℕ) (rows : List Row)
      → id ≢ j
      → find (has_id id) (change_row j f rows) ≡ find (has_id id) rows
  find-change_row_ne id j [] h = refl
  find-change_row_ne id j (x ∷ xs) h = ground (arith, keeps x.sub, find-change_row_ne id j xs h)

  pub find-change_row_self :
      (id : ℕ) (rows : List Row) {x : Row}
      → find (has_id id) rows ≡ some x
      → find (has_id id) (change_row id f rows) ≡ some (record x { sub = f x.sub })
  find-change_row_self id [] h = cc
  find-change_row_self id (y ∷ ys) {x} h = elim (Bool-cases (y.sub.id == id)) [
    | inl here ↦ ground (arith, keeps y.sub)
    | inr later ↦
        let ih : find (has_id id) ys ≡ some x
            → find (has_id id) (change_row id f ys) ≡ some (record x { sub = f x.sub }) =
          find-change_row_self id ys in
        ground (arith, ih, keeps y.sub)
  ]

  All-change_row :
      (k j : ℕ) (rows : List Row)
      → All (λ y. y.sub.id ≢ k) rows
      → All (λ y. y.sub.id ≢ k) (change_row j f rows)
  All-change_row k j [] h = tt
  All-change_row k j (x ∷ xs) h = (ground (arith, keeps x.sub, h.0), All-change_row k j xs h.1)

  UniqueIds-change_row :
      (j : ℕ) (rows : List Row) → UniqueIds rows → UniqueIds (change_row j f rows)
  UniqueIds-change_row j [] h = tt
  UniqueIds-change_row j (x ∷ xs) h = elim (Bool-cases (x.sub.id == j)) [
    | inl here ↦
        rw (here, keeps x.sub) (All-change_row x.sub.id j xs h.0, UniqueIds-change_row j xs h.1)
    | inr other ↦ rw other (All-change_row x.sub.id j xs h.0, UniqueIds-change_row j xs h.1)
  ]

  module _ (what : Text) (w : World) where
    update_exec-row_of_ne : (id j : ℕ) → id ≢ j → row_of id (update_exec what j f w).1 ≡ row_of id w
    unfolding update_exec
    update_exec-row_of_ne id j h = ground (arith, find-change_row_ne id j w.subs)

    update_exec-subs :
        (j : ℕ)
        → ((update_exec what j f w).1.subs ≡ w.subs)
          ⊎ ((update_exec what j f w).1.subs ≡ change_row j f w.subs)
    unfolding update_exec
    update_exec-subs j = ground arith

    update_exec-UniqueIds : (j : ℕ) → UniqueIds w.subs → UniqueIds (update_exec what j f w).1.subs
    update_exec-UniqueIds j h = elim (update_exec-subs j) [
      | inl same ↦ rw same h
      | inr changed ↦ rw changed (UniqueIds-change_row j w.subs h)
    ]

    -- With a database that answers, an allowed change of an existing row is made.
    pub update_exec_ok :
        (j : ℕ) {x : Row}
        → w.faults ≡ []
        → row_of j w ≡ some x
        → row_ok (f x.sub) ≡ true
        → update_exec what j f w ≡ (ok tt, record w { subs = change_row j f w.subs })
    unfolding update_exec
    update_exec_ok j up there allowed = ground arith

module _ (id j : ℕ) (w : World) (other : id ≢ j) where
  -- The two statements of the job leave the rows of other ids alone.
  pub update_status-row_of_ne :
      (status : SubscriptionStatus) → row_of id (update_status j status w).1 ≡ row_of id w
  unfolding update_status
  update_status-row_of_ne status =
      update_exec-row_of_ne (with_status status w.now) (λ s. refl) _ w id j other

  pub advance_period-row_of_ne :
      (start end : Time) → row_of id (advance_period j start end w).1 ≡ row_of id w
  unfolding advance_period
  advance_period-row_of_ne start end =
      update_exec-row_of_ne (with_period start end w.now) (λ s. refl) _ w id j other

module _ (j : ℕ) (w : World) (unique : UniqueIds w.subs) where
  pub update_status-UniqueIds :
      (status : SubscriptionStatus) → UniqueIds (update_status j status w).1.subs
  unfolding update_status
  update_status-UniqueIds status =
      update_exec-UniqueIds (with_status status w.now) (λ s. refl) _ w j unique

  pub advance_period-UniqueIds :
      (start end : Time) → UniqueIds (advance_period j start end w).1.subs
  unfolding advance_period
  advance_period-UniqueIds start end =
      update_exec-UniqueIds (with_period start end w.now) (λ s. refl) _ w j unique

-- The row that `Create` inserts.
unfoldable pub inserted : Subscription → Text → World → Row
unfolding stored_metadata
inserted s key w = record {
  sub = record s {
    id = w.fresh;
    metadata = stored_metadata s.metadata;
    payments = [];
    created_at = w.now;
    updated_at = w.now;
  };
  key = key;
}

-- A new key with a database that answers: the row is stored.
pub create-new :
    (s : Subscription) (key : Text) (w : World)
    → w.faults ≡ []
    → row_ok s ≡ true
    → find (has_key s.tenant_id key) w.subs ≡ none
    → create s key w ≡ (
      ok (record { subscription = (inserted s key w).sub; created = true }),
      record w { subs = w.subs ++ inserted s key w ∷ []; fresh = w.fresh + 1 },
    )
unfolding create insert query inserted
create-new s key w up allowed new = rw (up, allowed, new) refl

-- A key that is taken, whatever its row has become since: that row is returned as not created, and
-- nothing is stored.
pub create-taken :
    (s : Subscription) (key : Text) (w : World) {old : Row}
    → w.faults ≡ []
    → row_ok s ≡ true
    → find (has_key s.tenant_id key) w.subs ≡ some old
    → create s key w ≡ (ok (record { subscription = old.sub; created = false }), w)
unfolding create fetch_duplicate query
create-taken s key w up allowed taken = rw (up, allowed, taken) refl

module _ (w : World) (up : w.faults ≡ []) {r : Row} where
  -- With a database that answers, a row that is there is found, and an allowed change of it is made.
  pub get_by_key_ok :
      (key : ℕ) → find (has_subscription_key key) w.subs ≡ some r → get_by_key key w ≡ (ok r.sub, w)
  unfolding get_by_key query
  get_by_key_ok key there = ground arith

  pub get_by_id_ok : (id : ℕ) → row_of id w ≡ some r → get_by_id id w ≡ (ok r.sub, w)
  unfolding get_by_id query
  get_by_id_ok id there = ground arith

  pub update_returning_ok :
      (what : Text) (id : ℕ) (f : Subscription → Subscription)
      → row_of id w ≡ some r
      → row_ok (f r.sub) ≡ true
      → update_returning what id f w ≡ (ok (f r.sub), record w { subs = change_row id f w.subs })
  unfolding update_returning query
  update_returning_ok what id f there allowed = ground arith
