-- ===== src/Tests/Providers.antt =====
-- Mercado Pago.
use billax.Prelude.{
  ℕ, zero, suc, ◌-◌, ◌^◌, ◌<◌, ◌≤◌, ◌≡◌, refl, true, none, some, [], ◌∷◌, arith, pos, codes,
  text_eq,
}
use billax.Errors.{Error, opaque, sentinel, domain, err_provider_rejected, http_status_for}
use billax.Result.{Result, ok, err}
use billax.Provider.{config_value, ChargeRequest}
use billax.MercadoPago.{MpPayment, centavos_to_units}
use billax.MercadoPago.Client
use billax.MercadoPago.Client.{
  Network, Wire, HttpRequest, HttpResponse, map_error_category, error_of, judged, tried, attempts,
  exhausted, do_with_retry, decoded, round_trip, perform, new_payment_request, base_delay,
}
use billax.MercadoPago.Retry.{Repeats, IsJitter, sent, waited, do_with_retry-bounded}
use billax.MercadoPago.Answers.{is_retried}
use billax.MercadoPago.Gateway
use billax.MercadoPago.Gateway.{as_provider_error, classify, finish_charge, charge_with}
use billax.MercadoPago.Charges.{
  IsChargeStatus, charge_error_status, create_charge-IsChargeStatus, create_charge_refused,
}

abbrev a_mp_payment : MpPayment
a_mp_payment = record {
  id = pos 123;
  status = codes "approved";
  status_detail = codes "accredited";
  transaction_amount = centavos_to_units (pos 1500);
  payment_method_id = codes "visa";
  payment_type_id = codes "credit_card";
  card = some (codes "4242");
}

abbrev pub a_wire : Wire
a_wire = record {
  marshal_request = λ m. ok (codes "{}");
  marshal_refund_request = λ u. ok (codes "{}");
  decode_payment = λ s. ok a_mp_payment;
  decode_refund = λ s. err (opaque (codes "unexpected end of JSON input"));
  decode_error =
      λ s. some (record { message = codes "card declined"; error_code = codes "cc_rejected" });
  marshal_payment = λ p. ok (codes "{}");
}

abbrev answering : ℕ → HttpResponse
answering status = record { status_code = status; body = codes "{}" }

-- A network that gives each attempt its answer.
abbrev pub net_with : (ℕ → Result HttpResponse) → Network
net_with answers = record {
  answer = λ k req. answers k;
  done = λ k. none;
  jitter = λ k. 0;
  url_error = λ url. none;
}

abbrev busy_once : ℕ → Result HttpResponse
busy_once zero = ok (answering 429)
busy_once (suc k) = ok (answering 422)

abbrev pub a_net : Network
a_net = net_with busy_once

abbrev a_request : HttpRequest
a_request = record {
  url = codes "https://api.mercadopago.com/v1/payments";
  header = [];
  body = codes "{}";
}

two_pow_pos : (n : ℕ) → 0 < 2 ^ n
two_pow_pos zero = omega arith
two_pow_pos (suc n) = omega (arith, two_pow_pos n)

a_net-IsJitter : IsJitter a_net
a_net-IsJitter n = omega (arith, two_pow_pos (n - 1))

do_with_retry-bounded_example :
    Repeats a_request 4 (sent (do_with_retry a_wire a_net a_request).1)
    × (waited (do_with_retry a_wire a_net a_request).1 ≤ 10500000000)
do_with_retry-bounded_example = do_with_retry-bounded a_wire a_net a_request a_net-IsJitter

retried_once : (k : ℕ) → k < 1 → is_retried (busy_once k) ≡ true
retried_once zero lt = refl
retried_once (suc k) lt = absurd (omega arith)

abbrev a_charge : ChargeRequest
a_charge = record {
  amount = pos 1500;
  currency = codes "ARS";
  description = [];
  external_customer_id = codes "ana@example.com";
  idempotency_key = codes "order-1";
  config = (codes "access_token", codes "tok") ∷ [];
  metadata = [];
}

has_token : config_value a_charge.config (codes "access_token") ≡ codes "tok"
unfolding config_value text_eq
has_token = refl

create_charge_refused_example :
    (e : Error) × ((Gateway.create_charge a_wire a_net a_charge).0 ≡ err e)
    × (http_status_for e ≡ charge_error_status 422)
create_charge_refused_example =
    create_charge_refused a_wire a_net a_charge b't' (codes "ok") has_token (λ k. refl)
      (λ url. refl) (λ m. (codes "{}", refl)) 1 (answering 422) (omega arith)
      (λ k r lt. retried_once k lt) (λ r. refl) refl refl

abbrev declined : Error
declined =
    domain (codes "provider_rejected") (codes "card declined") 422 (sentinel err_provider_rejected)

charge_declined : (Gateway.create_charge a_wire a_net a_charge).0 ≡ err declined
unfolding Gateway.create_charge charge_with config_value text_eq Client.create_payment
    new_payment_request perform do_with_retry attempts tried judged error_of map_error_category
    round_trip decoded finish_charge as_provider_error classify
charge_declined = refl

create_charge-IsChargeStatus_example : IsChargeStatus (http_status_for declined)
create_charge-IsChargeStatus_example =
    create_charge-IsChargeStatus a_wire a_net a_charge declined (λ p. (codes "{}", refl))
      charge_declined
