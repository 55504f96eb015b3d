-- ===== src/Validation/Laws.antt =====
-- What the validators accept, and what the accumulator reports.
use mathlib.Core.List.{Mem, mem-cons, not-mem-nil, append_assoc, append-nil}
use mathlib.Core.Logic.Or
use billax.Prelude.{
  ◌≡◌, refl, sym, ap, ◌∙◌, ◌↔◌, inl, inr, Bool, true, Option, none, some, List, [], ◌∷◌, ◌++◌,
  arith, Bool-cases, All, Text, text_eq, Unicode, to_upper, text_eq→eq, eq→text_eq,
}
use billax.Errors.{same, FieldError}
use billax.Result.{ok}
use billax.Validation.{add_all, err_of, contains, currencies, iso_currency, valid_enum}

-- The failures among the results of some validators, in order.
abbrev pub failures : List (Option FieldError) → List FieldError
failures [] = []
failures (none ∷ rest) = failures rest
failures (some fe ∷ rest) = fe ∷ failures rest

add_all-eq-append :
    (fields : List FieldError) (rs : List (Option FieldError))
    → add_all fields rs ≡ fields ++ failures rs
unfolding add_all
add_all-eq-append fields [] = rw append-nil
add_all-eq-append fields (none ∷ rs) = add_all-eq-append fields rs
add_all-eq-append fields (some fe ∷ rs) =
    rw (add_all-eq-append (fields ++ fe ∷ []) rs) (append_assoc fields (fe ∷ []) (failures rs))

-- `Err` of a `ValidationError` that collected the results of some validators reports exactly the
-- failures among them, all of them and in the order of the calls.
pub err_of-add_all : (rs : List (Option FieldError)) → err_of (add_all [] rs) ≡ err_of (failures rs)
err_of-add_all rs = ap err_of (add_all-eq-append [] rs)

pub failures-nil : (rs : List (Option FieldError)) → All (λ r. r ≡ none) rs → failures rs ≡ []
failures-nil [] h = refl
failures-nil (none ∷ rs) h = failures-nil rs h.1
failures-nil (some fe ∷ rs) h = cc (h.0)

All-none-failures : (rs : List (Option FieldError)) → failures rs ≡ [] → All (λ r. r ≡ none) rs
All-none-failures [] h = tt
All-none-failures (none ∷ rs) h = (refl, All-none-failures rs h)
All-none-failures (some fe ∷ rs) h = cc

err_of-ok : (fields : List FieldError) → err_of fields ≡ ok tt → fields ≡ []
unfolding err_of
err_of-ok [] h = refl
err_of-ok (f ∷ fs) h = cc

-- The input passes exactly when every validator passes.
pub err_of-add_all_iff :
    (rs : List (Option FieldError)) → (err_of (add_all [] rs) ≡ ok tt) ↔ All (λ r. r ≡ none) rs
unfolding err_of
err_of-add_all_iff rs = (
  λ h. All-none-failures rs (err_of-ok _ (sym (err_of-add_all rs) ∙ h)),
  λ h. err_of-add_all rs ∙ ap err_of (failures-nil rs h),
)

pub contains→mem : (xs : List Text) (v : Text) → contains xs v ≡ true → Mem v xs
unfolding contains
contains→mem [] v h = cc
contains→mem (x ∷ xs) v h = elim (Bool-cases (text_eq v x)) [
  | inl same ↦ mem-cons.1 (Or.inl (text_eq→eq v x same))
  | inr other ↦ mem-cons.1 (Or.inr (contains→mem xs v (rw other at h)))
]

Bool_prop : (b c : Bool) → IsProp (b ≡ c)
Bool_prop = hlevel

pub mem→contains : (xs : List Text) (v : Text) → Mem v xs → contains xs v ≡ true
unfolding contains
mem→contains [] v m = absurd (not-mem-nil m)
mem→contains (x ∷ xs) v m =
    Or.elim (Bool_prop _ _) (mem-cons.0 m) (λ e. rw (eq→text_eq v x e))
      (λ later. ground (arith, mem→contains xs v later))

-- `ValidEnum` accepts exactly the allowed values.
pub valid_enum_iff :
    (field value : Text) (allowed : List Text)
    → (valid_enum field value allowed ≡ none) ↔ Mem value allowed
unfolding valid_enum
valid_enum_iff field value allowed =
    (λ h. contains→mem allowed value (ground arith), λ m. rw (mem→contains allowed value m))

-- `ISOCurrency` accepts exactly the strings whose upper-case form is a supported code.
pub iso_currency_iff :
    (u : Unicode) (field value : Text)
    → (iso_currency u field value ≡ none) ↔ Mem (to_upper u value) currencies
unfolding iso_currency
iso_currency_iff u field value = (
  λ h. contains→mem currencies (to_upper u value) (ground arith),
  λ m. rw (mem→contains currencies (to_upper u value) m),
)
