-- ===== src/Webhook.antt =====
-- internal/webhook/handler.go: `POST /webhooks/{webhookSecret}`. The tenant of the context that the
-- handler makes is read by nothing behind it, and the payment repository is not called.
pub mod Accepts
use billax.Prelude.{◌&&◌, ◌∷◌, ◌++◌, if◌then◌else◌, Text, codes, text_eq}
use billax.Errors.{Sentinel, err_invalid_input, err_webhook_signature_invalid, sentinel}
use billax.Errors.Respond.{ErrorResponse, respond_error}
use billax.Result.{Result, ok, err}
use billax.Provider.{ProviderAdapter, handle_webhook}
use billax.Credentials.{Vault}
use billax.Credentials.Repository.{is_given}
use billax.Credentials.Service.{lookup_by_webhook_secret}
use billax.World.{World, Act, pure, lift, ◌>>=◌, ◌>>◌, check}

-- The parts of a request that the handler reads; a body that cannot be read is an error.
pub record WebhookRequest : Type 0 where
  pub webhook_secret : Text
  pub body : Result Text
  pub x_signature : Text
  pub x_request_id : Text
  pub request_id : Text

pub data WebhookAnswer : Type 0 where
  -- 200, {"message": "webhook received"}
  received : WebhookAnswer
  refused : ErrorResponse → WebhookAnswer

-- An error is answered as a sentinel.
abbrev pub answer_as {ℓ} : {A : Type ℓ} → Sentinel → Act A → Act A
answer_as s m w = let (r, w') = m w in (elim r [ ok a ↦ ok a | err e ↦ err (sentinel s) ], w')

-- The signature parameter of a provider; Mercado Pago needs both headers.
unfoldable pub signature_for : Text → WebhookRequest → Result Text
unfolding text_eq
signature_for name req =
    if text_eq name (codes "mercadopago")
    then (if is_given req.x_signature && is_given req.x_request_id
        then ok (req.webhook_secret ++ b'|' ∷ (req.x_request_id ++ b'|' ∷ req.x_signature))
        else err (sentinel err_invalid_input))
    else ok req.x_signature

module _ (v : Vault) (a : ProviderAdapter) where
  unfoldable pub process : WebhookRequest → Act (Unit {0})
  unfolding signature_for handle_webhook
  process req = do
    check (is_given req.webhook_secret) (sentinel err_invalid_input)
    body ← answer_as err_invalid_input (lift req.body)
    (tenant, name, config) ←
        answer_as err_webhook_signature_invalid (lookup_by_webhook_secret v a req.webhook_secret)
    signature ← lift (signature_for name req)
    event ← lift (handle_webhook a name body signature)
    pure tt

  abbrev answer_of : Text → Result (Unit {0}) → WebhookAnswer
  answer_of request_id (ok _) = received
  answer_of request_id (err e) = refused (respond_error request_id e)

  -- `HandleWebhook`
  unfoldable pub receive : WebhookRequest → World → WebhookAnswer × World
  unfolding process
  receive req w = let (r, w') = process req w in (answer_of req.request_id r, w')
