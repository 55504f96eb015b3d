-- ===== src/Provider/Laws.antt =====
-- What the registry of providers returns after a registration.
use billax.Prelude.{◌≡◌, inl, inr, some, ◌∷◌, arith, if◌then◌else◌, Option-cases, Text, text_eq}
use billax.Result.{ok}
use billax.Provider.{PaymentProvider, Registry, find_provider, register, lookup_provider}

-- A registration that does not panic adds its provider under its name, and hides no other provider.
pub lookup_provider-register :
    (r r' : Registry) (p : PaymentProvider) (name : Text)
    → register r p ≡ some r'
    → lookup_provider r' name
      ≡ (if text_eq p.provider_name name then ok p else lookup_provider r name)
unfolding register lookup_provider find_provider
lookup_provider-register r r' p name h = elim (Option-cases (find_provider r p.provider_name)) [
  | inl free ↦ let added : p ∷ r ≡ r' = ground (arith, free) in rw (← added) (ground arith)
  | inr (q, taken) ↦ ground (arith, taken)
]
