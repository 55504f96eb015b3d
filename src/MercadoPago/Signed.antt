-- ===== src/MercadoPago/Signed.antt =====
-- internal/provider/mercadopago/webhook.go, provider.go: which notifications are accepted.
use billax.Prelude.{
  ◌≡◌, ◌≢◌, refl, sym, inl, inr, ap, ◌∙◌, if◌then◌else◌, IsOneOf, true, false, [], ◌∷◌, ◌++◌, arith,
  Text, codes, text_eq, text_eq→eq, text_eq_refl, split, lacks, split-lacks, split-append,
  lacks-append, is_hex_text, is_hex_text-lacks,
}
use billax.Validation.{show_int}
use billax.Result.{Result, ok, Result-cases}
use billax.Provider.{WebhookEvent}
use billax.MercadoPago.Header.{read_header_ts, read_header_v1, text_eq-ne-nil}
use billax.MercadoPago.Signature.{
  MpWebhookPayload, SignatureHeader, read_pair, event_of, read_header, read_parts, payment_id,
  signed_message, compare_signature, validate_signature, validate_and_parse_webhook,
  parse_webhook_event, handle_parts,
}

-- A signature header as Mercado Pago writes it.
abbrev pub header_of : Text → Text → Text
header_of ts v1 = codes "ts=" ++ (ts ++ (codes ",v1=" ++ v1))

-- `key=value` is cut in two.
pair_of :
    (key value : Text)
    → lacks b'=' key ≡ true
    → is_hex_text value ≡ true
    → split b'=' (key ++ b'=' ∷ value) ≡ key ∷ value ∷ []
pair_of key value hk hv =
    split-append b'=' key value hk
    ∙ ap (λ ps. key ∷ ps) (split-lacks b'=' value (is_hex_text-lacks b'=' value refl hv))

abbrev nothing_read : SignatureHeader
nothing_read = record { ts = []; v1 = [] }

read_two :
    (ts v1 : Text)
    → is_hex_text ts ≡ true
    → is_hex_text v1 ≡ true
    → read_parts nothing_read ((codes "ts=" ++ ts) ∷ (codes "v1=" ++ v1) ∷ [])
      ≡ record { ts = ts; v1 = v1 }
unfolding read_parts
read_two ts v1 hts hv1 =
    ap (λ kv. read_pair (read_pair nothing_read kv) (split b'=' (codes "v1=" ++ v1)))
      (pair_of (codes "ts") ts (unfold lacks in refl) hts)
    ∙ (unfold text_eq in
        ap (read_pair (record { ts = ts; v1 = [] }))
          (pair_of (codes "v1") v1 (unfold lacks in refl) hv1))

-- The payment that a notification names, by its data or else by its own number, and the message that
-- Mercado Pago signs.
abbrev pub payment_due : MpWebhookPayload → Text
payment_due wh = elim wh.data_id [ [] ↦ show_int wh.id | c ∷ s ↦ c ∷ s ]

abbrev pub message_due : Text → Text → Text → Text
message_due payment request_id ts =
    codes "id:"
    ++ (payment ++ (codes ";request-id:" ++ (request_id ++ (codes ";ts:" ++ (ts ++ codes ";")))))

payment_id_lem : (wh : MpWebhookPayload) → payment_id wh ≡ payment_due wh
unfolding payment_id text_eq
payment_id_lem wh = go wh.data_id
  where
    go :
        (d : Text)
        → (if text_eq d [] then show_int wh.id else d)
          ≡ elim d [ [] ↦ show_int wh.id | c ∷ s ↦ c ∷ s ]
    go [] = refl
    go (c ∷ s) = refl

-- A payload that is signed under a secret: the header has a time stamp and a `v1`, neither empty, and
-- `v1` is the HMAC of the message.
pub record IsSigned (hmac_hex : Text → Text → Text) (unmarshal : Text → Result MpWebhookPayload)
    (payload secret request_id header : Text) : Type 0 where
  pub notification : MpWebhookPayload
  pub ts : Text
  pub v1 : Text
  pub parsed : unmarshal payload ≡ ok notification
  pub has_ts : IsOneOf (codes "ts=" ++ ts) (split b',' header)
  pub has_v1 : IsOneOf (codes "v1=" ++ v1) (split b',' header)
  pub some_ts : ts ≢ []
  pub some_v1 : v1 ≢ []
  pub signed : hmac_hex secret (message_due (payment_due notification) request_id ts) ≡ v1

module _ (hmac_hex : Text → Text → Text) (unmarshal : Text → Result MpWebhookPayload) where
  abbrev pub mac_of : Text → Text → Text → MpWebhookPayload → Text
  mac_of secret request_id ts wh = hmac_hex secret (message_due (payment_due wh) request_id ts)

  -- The header is read back.
  read_header-header_of :
      (ts v1 : Text)
      → is_hex_text ts ≡ true
      → is_hex_text v1 ≡ true
      → read_header (header_of ts v1) ≡ record { ts = ts; v1 = v1 }
  unfolding read_header
  read_header-header_of ts v1 hts hv1 =
      let parts =
        split-append b',' (codes "ts=" ++ ts) (codes "v1=" ++ v1) (
          lacks-append b',' (codes "ts=") ts (unfold lacks in refl)
            (is_hex_text-lacks b',' ts refl hts))
        ∙ ap (λ ps. (codes "ts=" ++ ts) ∷ ps)
            (split-lacks b',' (codes "v1=" ++ v1) (
              lacks-append b',' (codes "v1=") v1 (unfold lacks in refl)
                (is_hex_text-lacks b',' v1 refl hv1))) in
      ap (read_parts nothing_read) parts ∙ read_two ts v1 hts hv1

  validate_signature_sound :
      (payload secret request_id raw : Text)
      → validate_signature hmac_hex unmarshal payload secret request_id raw ≡ ok tt
      → IsSigned hmac_hex unmarshal payload secret request_id raw
  unfolding validate_signature compare_signature
  validate_signature_sound payload secret request_id raw h =
      elim (Result-cases (unmarshal payload)) [
        | inl (wh, p) ↦
            let raw_ts : text_eq (read_header raw).ts [] ≡ false = ground (arith, p, h) in
            let raw_v1 : text_eq (read_header raw).v1 [] ≡ false = ground (arith, p, h) in
            let same : hmac_hex secret
                  (signed_message (payment_id wh) request_id (read_header raw).ts)
                ≡ (read_header raw).v1 =
              text_eq→eq _ _ (ground (arith, p, h)) in
            record {
              notification = wh;
              ts = (read_header raw).ts;
              v1 = (read_header raw).v1;
              parsed = p;
              has_ts = read_header_ts raw (text_eq-ne-nil _ raw_ts);
              has_v1 = read_header_v1 raw (text_eq-ne-nil _ raw_v1);
              some_ts = text_eq-ne-nil _ raw_ts;
              some_v1 = text_eq-ne-nil _ raw_v1;
              signed =
                  ap (λ id. hmac_hex secret (message_due id request_id (read_header raw).ts))
                    (sym (payment_id_lem wh))
                  ∙ same;
            }
        | inr (e, p) ↦ absurd (ground (arith, p, h))
      ]

  -- soundness
  pub handle_parts_sound :
      (payload secret request_id raw : Text) (event : WebhookEvent)
      → handle_parts hmac_hex unmarshal payload (secret ∷ request_id ∷ raw ∷ []) ≡ ok event
      → IsSigned hmac_hex unmarshal payload secret request_id raw
  unfolding handle_parts validate_and_parse_webhook
  handle_parts_sound payload secret request_id raw event h =
      elim (Result-cases (validate_signature hmac_hex unmarshal payload secret request_id raw)) [
        | inl (tt, p) ↦ validate_signature_sound payload secret request_id raw p
        | inr (e, p) ↦ absurd (ground (arith, p, h))
      ]

  validate_signature_complete :
      (payload secret request_id raw ts : Text) (wh : MpWebhookPayload)
      → unmarshal payload ≡ ok wh
      → read_header raw ≡ record { ts = ts; v1 = mac_of secret request_id ts wh }
      → text_eq ts [] ≡ false
      → text_eq (mac_of secret request_id ts wh) [] ≡ false
      → validate_signature hmac_hex unmarshal payload secret request_id raw ≡ ok tt
  unfolding validate_signature compare_signature
  validate_signature_complete payload secret request_id raw ts wh parsed header some_ts some_mac =
      rw
        (
          header,
          some_ts,
          some_mac,
          parsed,
          payment_id_lem wh,
          text_eq_refl (mac_of secret request_id ts wh),
        )
        refl

  handle_parts_valid :
      (payload secret request_id raw : Text) (wh : MpWebhookPayload)
      → unmarshal payload ≡ ok wh
      → validate_signature hmac_hex unmarshal payload secret request_id raw ≡ ok tt
      → handle_parts hmac_hex unmarshal payload (secret ∷ request_id ∷ raw ∷ [])
        ≡ ok (event_of hmac_hex unmarshal payload wh)
  unfolding handle_parts validate_and_parse_webhook parse_webhook_event
  handle_parts_valid payload secret request_id raw wh parsed valid = ground (arith, valid, parsed)

  -- A signature that was made with the secret is accepted.
  pub handle_parts_signed :
      (payload secret request_id ts : Text) (wh : MpWebhookPayload)
      → unmarshal payload ≡ ok wh
      → is_hex_text ts ≡ true
      → is_hex_text (mac_of secret request_id ts wh) ≡ true
      → text_eq ts [] ≡ false
      → text_eq (mac_of secret request_id ts wh) [] ≡ false
      → handle_parts hmac_hex unmarshal payload
          (secret ∷ request_id ∷ header_of ts (mac_of secret request_id ts wh) ∷ [])
        ≡ ok (event_of hmac_hex unmarshal payload wh)
  handle_parts_signed payload secret request_id ts wh parsed hts hmac some_ts some_mac =
      handle_parts_valid payload secret request_id (header_of ts (mac_of secret request_id ts wh))
        wh parsed
        (validate_signature_complete payload secret request_id
          (header_of ts (mac_of secret request_id ts wh)) ts wh parsed
          (read_header-header_of ts (mac_of secret request_id ts wh) hts hmac) some_ts some_mac)
