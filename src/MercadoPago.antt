-- ===== src/MercadoPago.antt =====
-- internal/provider/mercadopago: the wire types of client.go and the mapper of mapper.go. An amount in
-- units of the currency is the exact quotient in place of the float64 nearest to it.
pub mod Client
pub mod Retry
pub mod Answers
pub mod Signature
pub mod Gateway
pub mod Charges
pub mod Header
pub mod Signed
use billax.Prelude.{
  ℕ, ◌+◌, ◌*◌, ◌/◌, ◌≡◌, ◌||◌, Option, none, some, [], arith, leb, if◌then◌else◌, ℤ, pos, negsuc,
  pos_part, neg_part, sub_ℕ, Text, codes, text_eq, show_number,
}
use billax.Result.{Result, ok, wrap_err, ◌>>=◌, ◌>>◌}
use billax.Provider.{
  Config, ChargeRequest, ChargeStatus, charge_pending, charge_succeeded, charge_failed,
  PaymentMethodInfo, ChargeResult, RefundResult,
}
use billax.Validation.{show_int}

-- numerator / denominator
pub record Units : Type 0 where
  pub numerator : ℤ
  pub denominator : ℕ

-- `centavosToUnits`
abbrev pub centavos_to_units : ℤ → Units
centavos_to_units centavos = record { numerator = centavos; denominator = 100 }

-- `math.Round(units * 100)`: to the nearest integer, halves away from zero.
abbrev round_quotient : ℕ → ℕ → ℕ
round_quotient n d = (2 * n + d) / (2 * d)

-- `unitsToCentavos`
unfoldable pub units_to_centavos : Units → ℤ
units_to_centavos u =
    let d = u.denominator in
    if leb 1 (pos_part u.numerator)
    then pos (round_quotient (100 * pos_part u.numerator) d)
    else sub_ℕ 0 (round_quotient (100 * neg_part u.numerator) d)

pub record MpCreatePaymentRequest : Type 0 where
  pub transaction_amount : Units
  pub description : Text
  pub payer_email : Text
  pub external_reference : Text
  pub metadata : Config

pub record MpPayment : Type 0 where
  pub id : ℤ
  pub status : Text
  pub status_detail : Text
  pub transaction_amount : Units
  pub payment_method_id : Text
  pub payment_type_id : Text
  -- the last four digits of the card, if there is one
  pub card : Option Text

pub record MpRefund : Type 0 where
  pub id : ℤ
  pub status : Text

pub record MpErrorResponse : Type 0 where
  pub message : Text
  pub error_code : Text

-- `mapStatus`
unfoldable pub map_status : Text → ChargeStatus
unfolding text_eq
map_status s =
    if text_eq s (codes "approved")
    then charge_succeeded
    else if text_eq s (codes "pending")
        || text_eq s (codes "in_process")
        || text_eq s (codes "authorized")
    then charge_pending
    else if text_eq s (codes "rejected")
        || text_eq s (codes "cancelled")
        || text_eq s (codes "charged_back")
        || text_eq s (codes "refunded")
    then charge_failed
    else charge_pending

-- `mapRefundStatus`
unfoldable pub map_refund_status : Text → ChargeStatus
unfolding text_eq
map_refund_status s =
    if text_eq s (codes "approved")
    then charge_succeeded
    else if text_eq s (codes "pending")
    then charge_pending
    else charge_failed

abbrev last_four_of : Option Text → Text
last_four_of none = []
last_four_of (some digits) = digits

-- `mapPaymentMethod` of a payment that is not nil
abbrev pub map_payment_method : MpPayment → PaymentMethodInfo
map_payment_method p = record {
  method_type = p.payment_type_id;
  brand = p.payment_method_id;
  last_four = last_four_of p.card;
  bank = [];
}

-- `buildCreatePaymentRequest`
abbrev pub build_create_payment_request : ChargeRequest → MpCreatePaymentRequest
build_create_payment_request req = record {
  transaction_amount = centavos_to_units req.amount;
  description = req.description;
  payer_email = req.external_customer_id;
  external_reference = req.idempotency_key;
  metadata = req.metadata;
}

-- `mapToChargeResult`; `raw` is what `json.Marshal` gives for the payment.
unfoldable pub map_to_charge_result : (MpPayment → Result Text) → MpPayment → Result ChargeResult
unfolding show_int show_number map_status text_eq
map_to_charge_result marshal p = do
  raw ← wrap_err (codes "marshaling raw payment response") (marshal p)
  ok (record {
    provider_charge_id = show_int p.id;
    status = map_status p.status;
    failure_reason = p.status_detail;
    payment_method = some (map_payment_method p);
    raw_response = raw;
  })

-- `mapToRefundResult`
unfoldable pub map_to_refund_result : (MpRefund → Result Text) → MpRefund → Result RefundResult
unfolding show_int map_refund_status
map_to_refund_result marshal r = do
  raw ← wrap_err (codes "marshaling raw refund response") (marshal r)
  ok (record {
    provider_refund_id = show_int r.id;
    status = map_refund_status r.status;
    raw_response = raw;
  })

-- An amount comes back from the units that it is sent in.
pub units_to_centavos-centavos_to_units : (a : ℤ) → units_to_centavos (centavos_to_units a) ≡ a
unfolding units_to_centavos
units_to_centavos-centavos_to_units (pos n) = ground arith
units_to_centavos-centavos_to_units (negsuc n) = ground arith
