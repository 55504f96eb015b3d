-- ===== src/Payment/Repository/Unique.antt =====
-- One payment for each tenant and idempotency key.
use mathlib.Core.Path.{subst}
use billax.Prelude.{
  ℕ, ◌≡◌, refl, ◌∙◌, inl, inr, false, Option, none, some, List, [], ◌∷◌, ◌++◌, arith, Bool-cases,
  find, All, All-append_one, Text, codes, text_eq_symm,
}
use billax.Payment.Repository.Outcomes.{inserted}
use billax.World.Preserves.{
  Preserves, Preserves-lift, Preserves-wrapped, Preserves-bind, preserves_rules,
}
use billax.Payment.{Payment}
use billax.Payment.Repository.{
  is_keyed, found, get_by_key, fetch_existing, references, insert_on_conflict, insert_row, create,
}
use billax.World.{World, lift, wrapped, query}

-- No two payments have the same tenant and key.
abbrev pub UniqueKeys : List Payment → Type 0
UniqueKeys [] = Unit
UniqueKeys (p ∷ ps) = All (λ q. is_keyed p.tenant_id p.idempotency_key q ≡ false) ps × UniqueKeys ps

is_keyed_symm :
    (p q : Payment)
    → is_keyed p.tenant_id p.idempotency_key q ≡ is_keyed q.tenant_id q.idempotency_key p
is_keyed_symm p q = ground (arith, text_eq_symm q.idempotency_key p.idempotency_key)

UniqueKeys-append :
    (ps : List Payment) (q : Payment)
    → find (is_keyed q.tenant_id q.idempotency_key) ps ≡ none
    → UniqueKeys ps
    → UniqueKeys (ps ++ q ∷ [])
UniqueKeys-append [] q f u = (tt, tt)
UniqueKeys-append (p ∷ ps) q f u = (
  All-append_one _ ps q u.0 (is_keyed_symm p q ∙ ground arith),
  UniqueKeys-append ps q (ground arith) u.1,
)

abbrev Unique : World → Type 0
Unique w = UniqueKeys w.payments

query-Unique : Preserves Unique query
unfolding query
query-Unique = record { at = λ w u. subst UniqueKeys (query-payments w) u }
  where
    query-payments : (w : World) → w.payments ≡ (query w).1.payments
    query-payments w = ground arith

get_by_key-Unique : (tenant : ℕ) (key : Text) → Preserves Unique (get_by_key tenant key)
unfolding get_by_key
get_by_key-Unique tenant key = record {
  at = λ w u.
      (Preserves-bind (wrapped (codes "get payment by key") query)
          (λ _. lift (found w.payments (is_keyed tenant key)))
          (Preserves-wrapped _ query query-Unique) (λ _. Preserves-lift _)).at
        w u;
}

fetch_existing-Unique : (p : Payment) → Preserves Unique (fetch_existing p)
unfolding fetch_existing
fetch_existing-Unique p = search (preserves_rules, get_by_key-Unique)

insert_on_conflict-Unique :
    (o : Option Payment) (p : Payment) (w : World)
    → find (is_keyed p.tenant_id p.idempotency_key) w.payments ≡ o
    → Unique w
    → Unique (insert_on_conflict o p w).1
unfolding insert_on_conflict inserted
insert_on_conflict-Unique none p w e u = elim (Bool-cases (references p.subscription_id w.subs)) [
  | inl there ↦ rw there (UniqueKeys-append w.payments (inserted p w) e u)
  | inr missing ↦ rw missing u
]
insert_on_conflict-Unique (some taken) p w e u = (fetch_existing-Unique p).at w u

insert_row-Unique : (p : Payment) → Preserves Unique (insert_row p)
unfolding insert_row
insert_row-Unique p = record { at = λ w u. insert_on_conflict-Unique _ p w refl u }

-- The INSERT keeps at most one payment for each tenant and key, whatever the database answers.
pub create-UniqueKeys : (p : Payment) → Preserves (λ w. UniqueKeys w.payments) (create p)
unfolding create
create-UniqueKeys p = search (preserves_rules, query-Unique, insert_row-Unique)
