-- ===== src/Subscription/Due/Listed.antt =====
-- Whom the queries of the lifecycle job return: nobody that fails the condition of the query.
use billax.Prelude.{
  ℕ, zero, suc, ◌≡◌, sym, ◌≢◌, inl, inr, Bool, false, some, List, [], ◌∷◌, map, arith, ◌==◌, ==_iff,
  Bool-cases, take, select, find, All, Text,
}
use billax.Result.{ok}
use billax.Calendar.{Time, at_or_before}
use billax.Subscription.{Subscription}
use billax.Subscription.Repository.{has_id}
use billax.Subscription.Repository.Statements.{row_of, UniqueIds}
use billax.Subscription.Due.{insert_by, sort_by, selected, list_where}
use billax.World.{Row, World}
use billax.World.Keeps.{Keeps}

module _ {ℓ} (P : Subscription → Type ℓ) where
  All-insert_by :
      (at : Subscription → Time) (s : Subscription) (l : List Subscription)
      → P s
      → All P l
      → All P (insert_by at s l)
  unfolding insert_by
  All-insert_by at s [] p h = (p, tt)
  All-insert_by at s (t ∷ ts) p h = elim (Bool-cases (at_or_before (at s) (at t))) [
    | inl first ↦ rw first (p, h)
    | inr later ↦ rw later (h.0, All-insert_by at s ts p h.1)
  ]

  All-sort_by : (at : Subscription → Time) (l : List Subscription) → All P l → All P (sort_by at l)
  unfolding sort_by
  All-sort_by at [] h = tt
  All-sort_by at (s ∷ ss) h = All-insert_by at s (sort_by at ss) h.0 (All-sort_by at ss h.1)

  All-map :
      (columns : Subscription → Subscription) (l : List Subscription)
      → ((s : Subscription) → P s → P (columns s))
      → All P l
      → All P (map columns l)
  All-map columns [] k h = tt
  All-map columns (s ∷ ss) k h = (k s h.0, All-map columns ss k h.1)

  All-take : (n : ℕ) (l : List Subscription) → All P l → All P (take n l)
  All-take zero l h = tt
  All-take (suc n) [] h = tt
  All-take (suc n) (s ∷ ss) h = (h.0, All-take n ss h.1)

module _ (id : ℕ) (p : Subscription → Bool) where
  unselected_rest :
      (rows : List Row)
      → All (λ y. y.sub.id ≢ id) rows
      → All (λ s. id ≢ s.id) (select p (map (λ r. r.sub) rows))
  unselected_rest [] h = tt
  unselected_rest (x ∷ xs) h = elim (Bool-cases (p x.sub)) [
    | inl yes' ↦ rw yes' ((λ e. h.0 (sym e)), unselected_rest xs h.1)
    | inr no' ↦ rw no' (unselected_rest xs h.1)
  ]

  unselected :
      (rows : List Row) {r : Row}
      → UniqueIds rows
      → find (has_id id) rows ≡ some r
      → p r.sub ≡ false
      → All (λ s. id ≢ s.id) (select p (map (λ r. r.sub) rows))
  unselected [] u f h = tt
  unselected (x ∷ xs) {r} u f h = elim (Bool-cases (x.sub.id == id)) [
    | inl here ↦
        let same : x ≡ r = ground arith in
        let out : p x.sub ≡ false = rw same h in
        let xid : x.sub.id ≡ id = (==_iff _ _).0 here in rw out (unselected_rest xs (rw xid at u.0))
    | inr later ↦
        let there : find (has_id id) xs ≡ some r = ground arith in
        let rest : All (λ s. id ≢ s.id) (select p (map (λ r. r.sub) xs)) =
          unselected xs u.1 there h in
        elim (Bool-cases (p x.sub)) [
          | inl yes' ↦ rw yes' (ground arith, rest)
          | inr no' ↦ rw no' rest
        ]
  ]

  -- A row that fails the condition of a query is not in its result.
  pub list_where-unlisted :
      (what : Text) (at : Subscription → Time) (start trial : Bool) (w : World) {r : Row}
      (subs : List Subscription)
      → UniqueIds w.subs
      → row_of id w ≡ some r
      → p r.sub ≡ false
      → (list_where what p at (selected start trial) w).0 ≡ ok subs
      → All (λ s. id ≢ s.id) subs
  unfolding list_where
  list_where-unlisted what at start trial w subs u f h e =
      let listed : List Subscription = select p (map (λ r. r.sub) w.subs) in
      let same : map (selected start trial) (take 100 (sort_by at listed)) ≡ subs = ground arith in
      rw (← same) (
        All-map _ (selected start trial) _ (λ s k. k)
          (All-take _ 100 _ (All-sort_by _ at listed (unselected w.subs u f h))))

pub list_where-subs :
    (what : Text) (p : Subscription → Bool) (at : Subscription → Time)
    (columns : Subscription → Subscription)
    → Keeps (λ w. w.subs) (list_where what p at columns)
unfolding list_where
list_where-subs what p at columns = record { at = λ w. ground arith }
