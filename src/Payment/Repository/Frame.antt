-- ===== src/Payment/Repository/Frame.antt =====
-- What the statements on `payments` leave alone: the subscriptions.
use billax.Prelude.{ℕ, refl, Option, none, some, arith, Text, codes}
use billax.Errors.{wrap}
use billax.Payment.{Payment}
use billax.Payment.Repository.{
  is_keyed, found, get_by_key, insert, fetch_existing, references, insert_on_conflict, insert_row,
  create,
}
use billax.World.{lift, check, wrapped, constraint_error, query}
use billax.World.Keeps.{Keeps, Keeps-lift, Keeps-wrapped, Keeps-check, Keeps-bind, keeps_rules}

pub query-subs : Keeps (λ w. w.subs) query
unfolding query
query-subs = record { at = λ w. ground arith }

get_by_key-subs : (tenant : ℕ) (key : Text) → Keeps (λ w. w.subs) (get_by_key tenant key)
unfolding get_by_key
get_by_key-subs tenant key = record {
  at = λ w.
      (Keeps-bind (wrapped (codes "get payment by key") query)
          (λ _. lift (found w.payments (is_keyed tenant key))) (Keeps-wrapped _ query query-subs)
          (λ _. Keeps-lift _)).at
        w;
}

fetch_existing-subs : (p : Payment) → Keeps (λ w. w.subs) (fetch_existing p)
unfolding fetch_existing
fetch_existing-subs p = search (keeps_rules, get_by_key-subs)

insert-subs : (p : Payment) → Keeps (λ w. w.subs) (insert p)
unfolding insert
insert-subs p = record { at = λ w. refl }

insert_on_conflict-subs :
    (o : Option Payment) (p : Payment) → Keeps (λ w. w.subs) (insert_on_conflict o p)
unfolding insert_on_conflict
insert_on_conflict-subs none p = record {
  at = λ w.
      (Keeps-bind
          (check (references p.subscription_id w.subs)
            (wrap (codes "create payment") constraint_error))
          (λ _. insert p) (Keeps-check _ _) (λ _. insert-subs p)).at
        w;
}
insert_on_conflict-subs (some taken) p = fetch_existing-subs p

insert_row-subs : (p : Payment) → Keeps (λ w. w.subs) (insert_row p)
unfolding insert_row
insert_row-subs p = record { at = λ w. (insert_on_conflict-subs _ p).at w }

pub create-subs : (p : Payment) → Keeps (λ w. w.subs) (create p)
unfolding create
create-subs p = search (keeps_rules, query-subs, insert_row-subs)
