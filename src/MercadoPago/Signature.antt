-- ===== src/MercadoPago/Signature.antt =====
-- internal/provider/mercadopago/webhook.go: the check of a signed notification. HMAC-SHA256 in
-- hexadecimal, of a secret and a message, and `json.Unmarshal` are parameters. Texts are lists of bytes.
use billax.Prelude.{
  not, ◌||◌, List, [], ◌∷◌, ◌++◌, if◌then◌else◌, ℤ, Text, codes, text_eq, show_number, split,
}
use billax.Errors.{
  err_invalid_input, err_webhook_signature_invalid, Error, sentinel, wrap, opaque, is,
}
use billax.Result.{Result, ok, err, wrap_err, guard, ◌>>=◌, ◌>>◌}
use billax.Provider.{charge_pending, other_charge_status, WebhookEvent}
use billax.Validation.{show_int}

pub record MpWebhookPayload : Type 0 where
  pub id : ℤ
  pub event_type : Text
  pub data_id : Text

-- The values of `ts` and `v1` in a signature header.
pub record SignatureHeader : Type 0 where
  pub ts : Text
  pub v1 : Text

abbrev pub read_pair : SignatureHeader → List Text → SignatureHeader
read_pair h (key ∷ value ∷ []) =
    if text_eq key (codes "ts")
    then record h { ts = value }
    else if text_eq key (codes "v1")
    then record h { v1 = value }
    else h
read_pair h _ = h

unfoldable pub read_parts : SignatureHeader → List Text → SignatureHeader
unfolding text_eq split
read_parts h [] = h
read_parts h (part ∷ parts) = read_parts (read_pair h (split b'=' part)) parts

-- The loop over `strings.Split(rawSignature, ",")`.
unfoldable pub read_header : Text → SignatureHeader
unfolding read_parts split
read_header raw = read_parts (record { ts = []; v1 = [] }) (split b',' raw)

-- The payment that a notification is about.
unfoldable pub payment_id : MpWebhookPayload → Text
unfolding text_eq show_int show_number
payment_id wh = if text_eq wh.data_id [] then show_int wh.id else wh.data_id

abbrev pub signed_message : Text → Text → Text → Text
signed_message payment request_id ts =
    codes "id:"
    ++ (payment ++ (codes ";request-id:" ++ (request_id ++ (codes ";ts:" ++ (ts ++ codes ";")))))

abbrev malformed : Error
malformed = opaque (codes "mercadopago webhook: malformed signature (missing ts or v1)")

abbrev mismatch : Error
mismatch = opaque (codes "mercadopago webhook: signature validation failed")

module _ (hmac_hex : Text → Text → Text) (unmarshal : Text → Result MpWebhookPayload) where
  -- The comparison of `validateSignature`, for the header and the payload that were read.
  unfoldable pub compare_signature :
      Text → Text → SignatureHeader → MpWebhookPayload → Result (Unit {0})
  unfolding text_eq payment_id
  compare_signature secret request_id h wh =
      guard (text_eq (hmac_hex secret (signed_message (payment_id wh) request_id h.ts)) h.v1)
        mismatch

  -- `validateSignature`
  unfoldable pub validate_signature : Text → Text → Text → Text → Result (Unit {0})
  unfolding compare_signature read_header text_eq
  validate_signature payload secret request_id raw_signature = do
    let h = read_header raw_signature
    guard (not (text_eq h.ts [] || text_eq h.v1 [])) malformed
    wh ← wrap_err (codes "mercadopago webhook: parsing payload for ID") (unmarshal payload)
    compare_signature secret request_id h wh

  abbrev pub event_of : Text → MpWebhookPayload → WebhookEvent
  event_of payload wh =
      let is_payment = text_eq wh.event_type (codes "payment") in
      record {
        provider_name = codes "mercadopago";
        event_type = wh.event_type;
        provider_charge_id = if is_payment then payment_id wh else [];
        status = if is_payment then charge_pending else other_charge_status [];
        raw_payload = payload;
      }

  -- `parseWebhookEvent`
  unfoldable pub parse_webhook_event : Text → Result WebhookEvent
  unfolding text_eq payment_id
  parse_webhook_event payload = do
    wh ← wrap_err (codes "mercadopago webhook: parsing payload") (unmarshal payload)
    ok (event_of payload wh)

  -- `validateAndParseWebhook`: what went wrong is replaced by a sentinel.
  unfoldable pub validate_and_parse_webhook : Text → Text → Text → Text → Result WebhookEvent
  unfolding validate_signature parse_webhook_event
  validate_and_parse_webhook payload raw_signature secret request_id =
      elim (validate_signature payload secret request_id raw_signature) [
        | err e ↦ err (
            wrap (codes "mercadopago.validateAndParseWebhook")
              (sentinel err_webhook_signature_invalid))
        | ok _ ↦ elim (parse_webhook_event payload) [
          | err e ↦
              err (wrap (codes "mercadopago.validateAndParseWebhook") (sentinel err_invalid_input))
          | ok event ↦ ok event
        ]
      ]

  -- What `HandleWebhook` does with the parts of its signature parameter.
  unfoldable pub handle_parts : Text → List Text → Result WebhookEvent
  unfolding validate_and_parse_webhook is
  handle_parts payload (secret ∷ request_id ∷ raw_signature ∷ []) =
      elim (validate_and_parse_webhook payload raw_signature secret request_id) [
        | ok event ↦ ok event
        | err e ↦ err (
            wrap (codes "mercadopago.HandleWebhook") (
              sentinel (
                if is e err_webhook_signature_invalid
                then err_webhook_signature_invalid
                else err_invalid_input)))
      ]
  handle_parts payload _ = err (
      wrap
        (codes
          "mercadopago.HandleWebhook: signature parameter must be 'secret|requestID|rawSignature'")
        (sentinel err_invalid_input))

  -- `HandleWebhook` of provider.go
  unfoldable pub handle_webhook : Text → Text → Result WebhookEvent
  unfolding handle_parts split
  handle_webhook payload signature = handle_parts payload (split b'|' signature)
