-- ===== src/World/Preserves.antt =====
-- Actions that preserve an invariant of the world, whether they succeed or fail: one rule for each way
-- to build an action.
use mathlib.Core.Path.{subst}
use billax.Prelude.{◌≡◌, refl, sym, Bool, true, false, Text}
use billax.Errors.{Error}
use billax.Result.{Result, ok, err}
use billax.World.{World, Act, pure, fail, lift, resume, ◌>>=◌, check, wrapped}

pub record Preserves {ℓ κ} {A : Type ℓ} (P : World → Type κ) (m : Act A) : Type κ where
  pub at : (w : World) → P w → P (m w).1

module _ {ℓ κ} {A : Type ℓ} {P : World → Type κ} where
  pub Preserves-pure : (a : A) → Preserves P (pure a)
  Preserves-pure a = record { at = λ w h. h }

  pub Preserves-fail : (e : Error) → Preserves P (fail {A = A} e)
  Preserves-fail e = record { at = λ w h. h }

  pub Preserves-lift : (r : Result A) → Preserves P (lift r)
  Preserves-lift r = record { at = λ w h. h }

  pub Preserves-wrapped :
      (prefix : Text) (m : Act A) → Preserves P m → Preserves P (wrapped prefix m)
  Preserves-wrapped prefix m k = record { at = λ w h. k.at w h }

check-same : (b : Bool) (e : Error) (w : World) → (check b e w).1 ≡ w
check-same true e w = refl
check-same false e w = refl

module _ {κ} {P : World → Type κ} where
  pub Preserves-check : (b : Bool) (e : Error) → Preserves P (check b e)
  Preserves-check b e = record { at = λ w h. subst P (sym (check-same b e w)) h }

module _ {ℓ κ ι} {A : Type ℓ} {B : Type κ} {P : World → Type ι} where
  resume-P :
      (r : Result A × World) (f : A → Act B)
      → P r.1
      → ((a : A) → Preserves P (f a))
      → P (resume r f).1
  resume-P (ok a, w') f h k = (k a).at w' h
  resume-P (err e, w') f h k = h

  pub Preserves-bind :
      (m : Act A) (f : A → Act B)
      → Preserves P m
      → ((a : A) → Preserves P (f a))
      → Preserves P (m >>= f)
  Preserves-bind m f k h = record { at = λ w p. resume-P (m w) f (k.at w p) h }

pub ruleset preserves_rules = (
  Preserves-pure, Preserves-fail, Preserves-lift, Preserves-wrapped, Preserves-check,
  Preserves-bind,
)
