-- ===== src/World/Keeps.antt =====
-- Actions that leave a part of the world alone, whether they succeed or fail: one rule for each way to
-- build an action.
use billax.Prelude.{◌≡◌, refl, ap, ◌∙◌, Bool, true, false, Text}
use billax.Errors.{Error}
use billax.Result.{Result, ok, err}
use billax.World.{World, Act, pure, fail, lift, resume, ◌>>=◌, check, wrapped}

-- `m` leaves what `g` reads as it was.
pub record Keeps {ℓ κ} {A : Type ℓ} {X : Type κ} (g : World → X) (m : Act A) : Type κ where
  pub at : (w : World) → g (m w).1 ≡ g w

module _ {ℓ κ} {A : Type ℓ} {X : Type κ} {g : World → X} where
  pub Keeps-pure : (a : A) → Keeps g (pure a)
  Keeps-pure a = record { at = λ w. refl }

  pub Keeps-fail : (e : Error) → Keeps g (fail {A = A} e)
  Keeps-fail e = record { at = λ w. refl }

  pub Keeps-lift : (r : Result A) → Keeps g (lift r)
  Keeps-lift r = record { at = λ w. refl }

  pub Keeps-wrapped : (prefix : Text) (m : Act A) → Keeps g m → Keeps g (wrapped prefix m)
  Keeps-wrapped prefix m k = record { at = λ w. k.at w }

check-same : (b : Bool) (e : Error) (w : World) → (check b e w).1 ≡ w
check-same true e w = refl
check-same false e w = refl

module _ {κ} {X : Type κ} {g : World → X} where
  pub Keeps-check : (b : Bool) (e : Error) → Keeps g (check b e)
  Keeps-check b e = record { at = λ w. ap g (check-same b e w) }

module _ {ℓ κ ι} {A : Type ℓ} {B : Type κ} {X : Type ι} {g : World → X} where
  resume-same :
      (r : Result A × World) (f : A → Act B) (w : World)
      → g r.1 ≡ g w
      → ((a : A) → Keeps g (f a))
      → g (resume r f).1 ≡ g w
  resume-same (ok a, w') f w h k = (k a).at w' ∙ h
  resume-same (err e, w') f w h k = h

  pub Keeps-bind :
      (m : Act A) (f : A → Act B) → Keeps g m → ((a : A) → Keeps g (f a)) → Keeps g (m >>= f)
  Keeps-bind m f k h = record { at = λ w. resume-same (m w) f w (k.at w) h }

pub ruleset keeps_rules =
    (Keeps-pure, Keeps-fail, Keeps-lift, Keeps-wrapped, Keeps-check, Keeps-bind)
