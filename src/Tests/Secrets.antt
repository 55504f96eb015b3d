-- ===== src/Tests/Secrets.antt =====
-- The ciphers, the provider credentials and the webhooks.
use billax.Prelude.{
  ℕ, zero, suc, ◌≡◌, ◌≢◌, refl, some, [], ◌∷◌, ◌++◌, arith, length, pos, Text, codes, text_eq, ◌==◌,
  if◌then◌else◌, lacks, is_hex_text, split,
}
use billax.Errors.{err_not_found, opaque, sentinel, wrap}
use billax.Result.{Result, ok, err}
use billax.Crypto.{Aead, Cipher, IsCipher, encrypt, decrypt, decrypt-encrypt}
use billax.Provider
use billax.Provider.{Config, ProviderAdapter, config_value, find_provider, lookup_provider}
use billax.MercadoPago.Signature
use billax.MercadoPago.Signature.{
  MpWebhookPayload, handle_parts, validate_and_parse_webhook, validate_signature, compare_signature,
  parse_webhook_event, payment_id, signed_message, read_header, read_parts,
}
use billax.MercadoPago.Signed.{header_of, IsSigned}
use billax.MercadoPago.Gateway.{mercado_pago}
use billax.Validation.{contains}
use billax.Credentials.{CredentialRow, Vault}
use billax.Credentials.Codec.{
  enc_field, wrapper_of, marker, unsealed, read_config, sealed, IsStored,
}
use billax.Credentials.Repository.{
  violation, put_row, upsert_row, set, get, delete, delete_rows, get_tenant_by_webhook_secret,
}
use billax.Credentials.Store.{same_key}
use billax.Credentials.Refines.{get-set, get-delete}
use billax.Credentials.Service.{lookup_by_webhook_secret}
use billax.Webhook.{WebhookRequest, received, signature_for, process, receive}
use billax.Webhook.Accepts.{receive_sound, receive_signed}
use billax.World.{World, query, new_uuid}
use billax.Tests.Data.{a_time, a_world}
use billax.Tests.Providers.{a_wire, a_net}

-- A cipher that hides nothing.
abbrev zeros : ℕ → Text
zeros zero = []
zeros (suc n) = 0 ∷ zeros n

abbrev open_aead : Aead
open_aead = record {
  nonce_size = 12;
  seal = λ nonce plain. plain;
  open_sealed = λ nonce cut. ok cut;
}

abbrev a_cipher : Cipher
a_cipher = record {
  new_cipher = λ key. ok tt;
  new_gcm = λ key. ok open_aead;
  read_random = λ n size. ok (zeros size);
  encode_base64 = λ s. s;
  decode_base64 = λ s. ok s;
}

length-zeros : (n : ℕ) → length (zeros n) ≡ n
length-zeros zero = refl
length-zeros (suc n) = omega (arith, length-zeros n)

a_cipher-IsCipher : IsCipher a_cipher
a_cipher-IsCipher = record {
  aead = λ key. open_aead;
  accepts = λ key h. refl;
  makes_gcm = λ key h. refl;
  fills = λ n size. (zeros size, refl, length-zeros size);
  opens = λ key nonce plain. refl;
  has_nonce = λ key. omega arith;
  visible = λ s h. h;
  decodes = λ s. refl;
}

abbrev a_key : Text
a_key = codes "0123456789abcdef0123456789abcdef"

decrypt-encrypt_example :
    (encoded : Text) × (encrypt a_cipher 3 (codes "secret") a_key ≡ ok encoded)
    × (decrypt a_cipher encoded a_key ≡ ok (codes "secret"))
decrypt-encrypt_example = decrypt-encrypt a_cipher a_cipher-IsCipher 3 (codes "secret") a_key refl

-- A codec that knows one config and the wrapper.
abbrev a_config : Config
a_config = (codes "access_token", codes "tok") ∷ (codes "webhook_secret", codes "whsec") ∷ []

abbrev a_marshal : Config → Result Text
a_marshal ((k, value) ∷ []) = ok (b'E' ∷ value)
a_marshal _ = ok (b'P' ∷ [])

abbrev a_unmarshal : Text → Result Config
a_unmarshal [] = err (opaque (codes "unexpected end of JSON input"))
a_unmarshal (c ∷ s) = if c == b'E' then ok (wrapper_of s) else ok a_config

abbrev a_vault : Vault
a_vault = record {
  marshal = a_marshal;
  unmarshal = a_unmarshal;
  cipher = a_cipher;
  enc_key = a_key;
}

a_config-IsStored : IsStored a_vault a_config
a_config-IsStored = record {
  json = b'P' ∷ [];
  marshals = refl;
  unmarshals = refl;
  wraps = λ encrypted. (b'E' ∷ encrypted, refl, refl);
}

unmarked : config_value a_config enc_field ≡ []
unfolding config_value text_eq
unmarked = refl

abbrev a_row : CredentialRow
a_row = record {
  tenant_id = 7;
  provider_name = codes "mercadopago";
  config = b'E' ∷ (zeros 12 ++ b'P' ∷ []);
  webhook_secret = codes "whsec";
  created_at = a_time;
  updated_at = a_time;
}

abbrev set_world : World
set_world = record a_world { credentials = a_row ∷ []; fresh = 101 }

was_set : set a_vault 7 (codes "mercadopago") a_config a_world ≡ (ok tt, set_world)
unfolding set config_value new_uuid sealed encrypt query upsert_row violation contains put_row
    text_eq
was_set = refl

get-set_example : (get a_vault 7 (codes "mercadopago") set_world).0 ≡ (
    if same_key 7 (codes "mercadopago") 7 (codes "mercadopago")
    then ok a_config
    else (get a_vault 7 (codes "mercadopago") a_world).0)
get-set_example =
    get-set a_vault a_cipher-IsCipher a_config a_config-IsStored 7 (codes "mercadopago") a_world
      set_world unmarked refl was_set 7 (codes "mercadopago")

was_deleted :
    delete a_vault 7 (codes "mercadopago") set_world
    ≡ (ok tt, record set_world { credentials = [] })
unfolding delete query delete_rows text_eq
was_deleted = refl

get-delete_example :
    (get a_vault 7 (codes "mercadopago") (record set_world { credentials = [] })).0 ≡ (
      if same_key 7 (codes "mercadopago") 7 (codes "mercadopago")
      then err (wrap (codes "get credentials") (sentinel err_not_found))
      else (get a_vault 7 (codes "mercadopago") set_world).0)
get-delete_example =
    get-delete a_vault 7 (codes "mercadopago") set_world (record set_world { credentials = [] })
      refl was_deleted 7 (codes "mercadopago")

-- A notification of Mercado Pago.
abbrev an_hmac : Text → Text → Text
an_hmac secret message = codes "5eed"

abbrev a_notification : MpWebhookPayload
a_notification = record { id = pos 9; event_type = codes "payment"; data_id = codes "123" }

abbrev mp_adapter : ProviderAdapter
mp_adapter = record {
  registry = mercado_pago a_wire an_hmac (λ s. ok a_notification) (λ n. a_net) ∷ [];
  yaml_caps = [];
}

registered :
    find_provider mp_adapter.registry (codes "mercadopago")
    ≡ some (mercado_pago a_wire an_hmac (λ s. ok a_notification) (λ n. a_net))
unfolding find_provider text_eq
registered = refl

abbrev a_webhook : WebhookRequest
a_webhook = record {
  webhook_secret = codes "whsec";
  body = ok (codes "{}");
  x_signature = header_of (codes "1700") (codes "5eed");
  x_request_id = codes "req-1";
  request_id = codes "r1";
}

secret_found :
    (lookup_by_webhook_secret a_vault mp_adapter (codes "whsec") set_world).0
    ≡ ok (7, codes "mercadopago", a_config)
unfolding lookup_by_webhook_secret get_tenant_by_webhook_secret query read_config unsealed marker
    decrypt config_value text_eq
secret_found = refl

receive_signed_example : (receive a_vault mp_adapter a_webhook set_world).0 ≡ received
receive_signed_example =
    receive_signed a_vault mp_adapter a_wire an_hmac (λ s. ok a_notification) (λ n. a_net)
      registered a_webhook set_world 7 a_config secret_found (codes "{}") (codes "1700")
      a_notification refl refl refl refl (unfold lacks in refl) (unfold lacks in refl) refl
      (unfold is_hex_text in refl) (unfold is_hex_text in refl) (unfold text_eq in refl)
      (unfold text_eq in refl)

acknowledged : (receive a_vault mp_adapter a_webhook set_world).0 ≡ received
unfolding receive process signature_for Provider.handle_webhook lookup_provider find_provider
    Signature.handle_webhook handle_parts validate_and_parse_webhook validate_signature
    compare_signature parse_webhook_event read_header read_parts payment_id split text_eq
    lookup_by_webhook_secret get_tenant_by_webhook_secret query read_config unsealed marker decrypt
    config_value
acknowledged = refl

receive_sound_example :
    (payload : Text) × (a_webhook.body ≡ ok payload)
    × (a_webhook.x_request_id ≢ [])
    × IsSigned an_hmac
        (λ s. ok a_notification)
        payload
        (codes "whsec")
        (codes "req-1")
        a_webhook.x_signature
receive_sound_example =
    receive_sound a_vault mp_adapter a_wire an_hmac (λ s. ok a_notification) (λ n. a_net) registered
      a_webhook set_world 7 a_config secret_found acknowledged
