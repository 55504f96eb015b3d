-- ===== src/Subscription/Transitions.antt =====
-- `validateStatusTransition` of service.go, and what a sequence of accepted changes can reach.
use billax.Prelude.{◌≡◌, refl, ◌⊎◌, inl, inr, Bool, true, false, not, ◌++◌, codes}
use billax.Errors.{err_invalid_input, Error, sentinel, domain}
use billax.Result.{Result, ok, err, guard}
use billax.Subscription.{
  SubscriptionStatus, trialing, active, past_due, canceled, expired, status_text,
}

-- The map `forbiddenTransitions`.
unfoldable pub forbidden : SubscriptionStatus → SubscriptionStatus → Bool
forbidden canceled active = true
forbidden canceled trialing = true
forbidden canceled past_due = true
forbidden expired active = true
forbidden expired trialing = true
forbidden _ _ = false

unfoldable pub transition_error : SubscriptionStatus → SubscriptionStatus → Error
transition_error current next =
    domain (codes "invalid_status_transition")
      (codes "cannot transition from "
        ++ (status_text current ++ (codes " to " ++ status_text next)))
      422 (sentinel err_invalid_input)

unfoldable pub validate_status_transition :
    SubscriptionStatus → SubscriptionStatus → Result (Unit {0})
unfolding forbidden transition_error
validate_status_transition current next =
    guard (not (forbidden current next)) (transition_error current next)

-- The statuses that a sequence of accepted changes leads to.
pub data Reaches (s : SubscriptionStatus) : SubscriptionStatus → Type 0 where
  here : Reaches s s
  step :
      {t u : SubscriptionStatus}
      → Reaches s t
      → validate_status_transition t u ≡ ok tt
      → Reaches s u

-- A status that ends the life of a subscription, for a single change: it may not become active or
-- trialing again.
pub over_is_over :
    (s t : SubscriptionStatus)
    → (s ≡ canceled) ⊎ (s ≡ expired)
    → (t ≡ active) ⊎ (t ≡ trialing)
    → validate_status_transition s t ≡ err (transition_error s t)
unfolding validate_status_transition
over_is_over s t (inl p) (inl q) = rw (p, q)
over_is_over s t (inl p) (inr q) = rw (p, q)
over_is_over s t (inr p) (inl q) = rw (p, q)
over_is_over s t (inr p) (inr q) = rw (p, q)

to_expired : (s : SubscriptionStatus) → validate_status_transition s expired ≡ ok tt
unfolding validate_status_transition
to_expired canceled = refl
to_expired expired = refl
to_expired _ = refl

from_past_due : (t : SubscriptionStatus) → validate_status_transition past_due t ≡ ok tt
unfolding validate_status_transition
from_past_due active = refl
from_past_due _ = refl

-- Every status is reached from every status by changes that are each accepted: a canceled or expired
-- subscription becomes active again by way of `expired` and `past_due`.
pub all-Reaches : (s t : SubscriptionStatus) → Reaches s t
all-Reaches s t = step (step (step here (to_expired s)) expired_to_past_due) (from_past_due t)
  where
    expired_to_past_due : validate_status_transition expired past_due ≡ ok tt
    expired_to_past_due = unfold validate_status_transition in refl
