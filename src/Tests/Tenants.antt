-- ===== src/Tests/Tenants.antt =====
-- Tenants and their keys.
use billax.Prelude.{
  ◌≡◌, ◌≤◌, refl, true, none, [], ◌++◌, length, all, find, codes, text_eq, to_lower, lower_rune,
  ascii, ◌&&◌, ◌⊎◌,
}
use billax.Result.{ok, err}
use billax.Tenant.{PlaintextKey, SignupInput, CreateKeyInput}
use billax.Tenant.Keygen.{KeySource}
use billax.Tenant.Slug.{
  is_slug_rune, trim_hyphens, generate_slug_from_name, validate_slug, generate_slug_from_name_lem,
}
use billax.Tenant.Keys.{is_key_of, key_not_found}
use billax.Tenant.Service.{create_key, signup, revoke_key}
use billax.Tenant.Service.Signups.{UniqueTenants, signup-UniqueTenants}
use billax.Tenant.Service.Issued.{store_of, create_key_authenticated, revoke_key_lem}
use billax.Middleware.Auth.{authenticated, authenticate}
use billax.World.{World}
use billax.Tests.Data.{acme, a_world}

abbrev a_source : KeySource
a_source = record {
  read_random = λ n size. ok (codes "Zq8");
  encode_url = λ s. s;
  hash = λ token salt. salt ++ token;
}

abbrev plain_input : CreateKeyInput
plain_input = record { description = codes "ci"; expires_at = none }

create_key_authenticated_example :
    (k : PlaintextKey) × (w' : World) × (create_key ascii a_source
        (codes "production")
        7
        plain_input
        a_world
      ≡ (ok k, w'))
    × (authenticate a_source.hash (store_of w') w'.now (codes "Bearer " ++ k.key) ≡ authenticated 7)
create_key_authenticated_example =
    create_key_authenticated ascii a_source (codes "production") 7 plain_input a_world (codes "Zq8")
      acme refl refl refl (unfold text_eq in refl) refl (unfold text_eq in refl)

abbrev a_signup : SignupInput
a_signup = record {
  name = codes "Blue Sky, Inc.";
  slug = [];
  email = codes "it@blue.example";
  password = [];
}

signup-UniqueTenants_example :
    UniqueTenants (signup ascii a_source (codes "production") a_signup a_world).1.tenants
signup-UniqueTenants_example =
    signup-UniqueTenants ascii a_source (codes "production") a_signup a_world (tt, tt)

signup_slug : generate_slug_from_name ascii (codes "Blue Sky, Inc.") ≡ codes "blue-sky-inc"
unfolding generate_slug_from_name to_lower lower_rune trim_hyphens
signup_slug = refl

generate_slug_from_name_lem_example :
    (length (generate_slug_from_name ascii (codes "ACME Corp")) ≤ 100)
    × (all is_slug_rune (generate_slug_from_name ascii (codes "ACME Corp")) ≡ true)
    × (2 ≤ length (generate_slug_from_name ascii (codes "ACME Corp"))
        → validate_slug (generate_slug_from_name ascii (codes "ACME Corp")) ≡ none)
generate_slug_from_name_lem_example = generate_slug_from_name_lem ascii (codes "ACME Corp")

revoke_key_lem_example :
    ((find (is_key_of 7 3) a_world.api_keys ≡ none)
      × (revoke_key 7 3 a_world ≡ (err key_not_found, a_world)))
    ⊎ ((w' : World) × (revoke_key 7 3 a_world ≡ (ok tt, w'))
        × (find (λ r. is_key_of 7 3 r && r.api_key.is_active) w'.api_keys ≡ none))
revoke_key_lem_example = revoke_key_lem 7 3 a_world refl
