-- ===== src/Webhook/Accepts.antt =====
-- internal/webhook/handler.go: which notifications of Mercado Pago are accepted.
use billax.Prelude.{
  ℕ, ◌≡◌, ◌≢◌, refl, length, arith, Bool-cases, split_three, sym, ap, ◌∙◌, inl, inr, some, List, [],
  ◌∷◌, ◌++◌, true, false, ◌&&◌, Text, codes, text_eq, split, lacks, split-append, split-lacks,
  lacks-append, is_hex_text, is_hex_text-lacks,
}
use billax.Errors.{err_invalid_input, sentinel}
use billax.Result.{Result, ok, err, wrap_err, Result-cases}
use billax.Provider
use billax.Provider.{Config, ProviderAdapter, WebhookEvent, find_provider, lookup_provider}
use billax.Credentials.{Vault}
use billax.Credentials.Repository.{is_given}
use billax.Credentials.Service.{lookup_by_webhook_secret}
use billax.MercadoPago.Client.{Wire, Network}
use billax.MercadoPago.Signature
use billax.MercadoPago.Signature.{
  MpWebhookPayload, handle_parts, read_header, payment_id, signed_message, event_of,
}
use billax.MercadoPago.Signed.{IsSigned, header_of, mac_of, handle_parts_signed, handle_parts_sound}
use billax.MercadoPago.Gateway.{mercado_pago}
use billax.Webhook.{WebhookRequest, received, signature_for, process, receive}
use billax.World.{World, resume, pure}

abbrev through {ℓ} : {A : Type ℓ} → Result A → Result (Unit {0})
through (ok a) = ok tt
through (err e) = err e

through-resume :
    {A : Type 0} (r : Result A) (w : World) → (resume (r, w) (λ _. pure tt)).0 ≡ through r
through-resume (ok x) w = refl
through-resume (err e) w = refl

-- A parameter of three parts is needed.
three_given :
    (hmac_hex : Text → Text → Text) (unmarshal : Text → Result MpWebhookPayload) (payload : Text)
    (ps : List Text) (event : WebhookEvent)
    → handle_parts hmac_hex unmarshal payload ps ≡ ok event
    → length ps ≡ 3
unfolding handle_parts
three_given hmac_hex unmarshal payload [] event h = absurd (cc h)
three_given hmac_hex unmarshal payload (a ∷ []) event h = absurd (cc h)
three_given hmac_hex unmarshal payload (a ∷ b ∷ []) event h = absurd (cc h)
three_given hmac_hex unmarshal payload (a ∷ b ∷ c ∷ []) event h = refl
three_given hmac_hex unmarshal payload (a ∷ b ∷ c ∷ d ∷ ps) event h = absurd (cc h)

is_given-ne-nil : (s : Text) → is_given s ≡ true → s ≢ []
is_given-ne-nil [] h = cc h
is_given-ne-nil (c ∷ s) h = λ e. cc e

-- A header is free of bars.
header_of-lacks :
    (ts v1 : Text)
    → is_hex_text ts ≡ true
    → is_hex_text v1 ≡ true
    → lacks b'|' (header_of ts v1) ≡ true
header_of-lacks ts v1 hts hv1 =
    lacks-append b'|' (codes "ts=") (ts ++ (codes ",v1=" ++ v1)) (unfold lacks in refl) (
      lacks-append b'|' ts (codes ",v1=" ++ v1) (is_hex_text-lacks b'|' ts refl hts) (
        lacks-append b'|' (codes ",v1=") v1 (unfold lacks in refl)
          (is_hex_text-lacks b'|' v1 refl hv1)))

module _ (v : Vault) (a : ProviderAdapter) (wire : Wire) (hmac_hex : Text → Text → Text)
    (unmarshal : Text → Result MpWebhookPayload) (nets : ℕ → Network)
    (registered : find_provider a.registry (codes "mercadopago")
      ≡ some (mercado_pago wire hmac_hex unmarshal nets))
    (req : WebhookRequest) (w : World) (tenant : ℕ) (config : Config)
    (found : (lookup_by_webhook_secret v a req.webhook_secret w).0
      ≡ ok (tenant, codes "mercadopago", config)) where
  abbrev parameter : Text
  parameter = req.webhook_secret ++ b'|' ∷ (req.x_request_id ++ b'|' ∷ req.x_signature)

  abbrev parsed_parts : Text → Result WebhookEvent
  parsed_parts payload =
      wrap_err (codes "adapter.HandleWebhook via mercadopago")
        (handle_parts hmac_hex unmarshal payload (split b'|' parameter))

  adapted :
      (payload : Text)
      → Provider.handle_webhook a (codes "mercadopago") payload parameter ≡ parsed_parts payload
  unfolding Provider.handle_webhook lookup_provider Signature.handle_webhook
  adapted payload = rw (Provider.handle_webhook, lookup_provider, registered) refl

  module _ (payload : Text) (body : req.body ≡ ok payload)
      (has_secret : is_given req.webhook_secret ≡ true) where
    -- The checks of the handler pass, and the connector gets the three values.
    process_lem :
        is_given req.x_signature && is_given req.x_request_id ≡ true
        → (process v a req w).0 ≡ through (parsed_parts payload)
    unfolding process signature_for text_eq
    process_lem has_headers =
        rw (has_secret, body, found, has_headers, adapted payload)
          (through-resume (parsed_parts payload) _)

    -- A header is missing.
    process_bare :
        is_given req.x_signature && is_given req.x_request_id ≡ false
        → (process v a req w).0 ≡ err (sentinel err_invalid_input)
    unfolding process signature_for text_eq
    process_bare bare = rw (has_secret, body, found, bare) refl

  process_received : (receive v a req w).0 ≡ received → (process v a req w).0 ≡ ok tt
  unfolding receive
  process_received h = elim (Result-cases (process v a req w).0) [
    | inl (tt, done) ↦ done
    | inr (e, wrong) ↦ absurd (ground (arith, wrong, h))
  ]

  -- What is known of a request whose processing succeeds.
  process_checked :
      (process v a req w).0 ≡ ok tt
      → (payload : Text) × (req.body ≡ ok payload)
        × (is_given req.webhook_secret ≡ true)
        × (is_given req.x_signature && is_given req.x_request_id ≡ true)
        × (through (parsed_parts payload) ≡ ok tt)
  unfolding process
  process_checked h = elim (Bool-cases (is_given req.webhook_secret)) [
    | inr none' ↦
        let run : (process v a req w).0 ≡ err (sentinel err_invalid_input) = rw none' refl in
        absurd (cc (run, h))
    | inl has_secret ↦ elim (Result-cases req.body) [
      | inr (e, unread) ↦
          let run : (process v a req w).0 ≡ err (sentinel err_invalid_input) =
            rw (has_secret, unread) refl in
          absurd (cc (run, h))
      | inl (payload, body) ↦
          elim (Bool-cases (is_given req.x_signature && is_given req.x_request_id)) [
            | inl both ↦ (
              payload,
              body,
              has_secret,
              both,
              sym (process_lem payload body has_secret both) ∙ h,
            )
            | inr bare ↦ absurd (cc (process_bare payload body has_secret bare, h))
          ]
    ]
  ]

  three_parts :
      lacks b'|' req.webhook_secret ≡ true
      → lacks b'|' req.x_request_id ≡ true
      → lacks b'|' req.x_signature ≡ true
      → split b'|' parameter ≡ req.webhook_secret ∷ req.x_request_id ∷ req.x_signature ∷ []
  three_parts no_bar no_bar' no_bar'' =
      split-append b'|' req.webhook_secret (req.x_request_id ++ b'|' ∷ req.x_signature) no_bar
      ∙ ap (λ ps. req.webhook_secret ∷ ps)
          (split-append b'|' req.x_request_id req.x_signature no_bar'
            ∙ ap (λ ps. req.x_request_id ∷ ps) (split-lacks b'|' req.x_signature no_bar''))

  -- The connector accepts three values only.
  handled :
      (payload : Text) (event : WebhookEvent)
      → handle_parts hmac_hex unmarshal payload (split b'|' parameter) ≡ ok event
      → IsSigned hmac_hex unmarshal payload req.webhook_secret req.x_request_id req.x_signature
  handled payload event e =
      let (no_bar, no_bar', no_bar'') =
        split_three b'|' req.webhook_secret req.x_request_id req.x_signature
          (three_given hmac_hex unmarshal payload (split b'|' parameter) event e) in
      handle_parts_sound hmac_hex unmarshal payload req.webhook_secret req.x_request_id
        req.x_signature event
        (ap (handle_parts hmac_hex unmarshal payload) (sym (three_parts no_bar no_bar' no_bar''))
          ∙ e)

  -- Whatever the request is: where its secret is that of a tenant of Mercado Pago, whose connector is
  -- registered, it is acknowledged only if its body can be read and parsed, it has a request id, and its signature header has a time
  -- stamp and a `v1`, neither empty, where `v1` is the HMAC under the secret of the message of the
  -- payment, the request id and the time stamp.
  pub receive_sound :
      (receive v a req w).0 ≡ received
      → (payload : Text) × (req.body ≡ ok payload)
        × (req.x_request_id ≢ [])
        × IsSigned hmac_hex unmarshal payload req.webhook_secret req.x_request_id req.x_signature
  receive_sound h =
      let (payload, body, has_secret, both, done) = process_checked (process_received h) in
      elim (Result-cases (handle_parts hmac_hex unmarshal payload (split b'|' parameter))) [
        | inl (event, e) ↦ (
          payload,
          body,
          is_given-ne-nil req.x_request_id (ground (arith, both)),
          handled payload event e,
        )
        | inr (e, wrong) ↦ absurd (ground (arith, wrong, done))
      ]

  -- A notification that is signed with the webhook secret of a tenant of Mercado Pago, whose connector
  -- is registered, is acknowledged, if its body can be read and parsed, it has a request id, neither the secret nor the request id
  -- holds a `|`, and the time stamp and the HMAC are hexadecimal digits, at least one each.
  pub receive_signed :
      (payload ts : Text) (wh : MpWebhookPayload)
      → req.body ≡ ok payload
      → unmarshal payload ≡ ok wh
      → is_given req.webhook_secret ≡ true
      → is_given req.x_request_id ≡ true
      → lacks b'|' req.webhook_secret ≡ true
      → lacks b'|' req.x_request_id ≡ true
      → req.x_signature
        ≡ header_of ts (mac_of hmac_hex unmarshal req.webhook_secret req.x_request_id ts wh)
      → is_hex_text ts ≡ true
      → is_hex_text (mac_of hmac_hex unmarshal req.webhook_secret req.x_request_id ts wh) ≡ true
      → text_eq ts [] ≡ false
      → text_eq (mac_of hmac_hex unmarshal req.webhook_secret req.x_request_id ts wh) [] ≡ false
      → (receive v a req w).0 ≡ received
  unfolding receive
  receive_signed payload ts wh body parsed has_secret has_id no_bar no_bar' signed hts hmac some_ts
        some_mac =
      let no_bar'' : lacks b'|' req.x_signature ≡ true =
        rw signed (header_of-lacks ts _ hts hmac) in
      let both : is_given req.x_signature && is_given req.x_request_id ≡ true =
        rw (signed, has_id) refl in
      let accepted : handle_parts hmac_hex unmarshal payload
            (req.webhook_secret ∷ req.x_request_id ∷ req.x_signature ∷ [])
          ≡ ok (event_of hmac_hex unmarshal payload wh) =
        rw signed (
          handle_parts_signed hmac_hex unmarshal payload req.webhook_secret req.x_request_id ts wh
            parsed hts hmac some_ts some_mac) in
      rw (process_lem payload body has_secret both, three_parts no_bar no_bar' no_bar'', accepted)
        refl
