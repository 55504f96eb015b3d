-- ===== src/Payment/List.antt =====
-- `List` of internal/payment/repository.go and internal/payment/service.go. A status of the input is
-- one of the four; base64, the parsers of times and uuids, and the text of a uuid are parameters.
pub mod Fetched
pub mod Wanted
pub mod Whole
pub mod Pages
use billax.Prelude.{
  ℕ, suc, Bool, true, false, not, ◌&&◌, ◌||◌, Option, none, some, List, [], ◌∷◌, ◌++◌, ltb, ◌==◌,
  if◌then◌else◌, take, get_elem?, select, ℤ, pos, negsuc, Text, codes, text_eq,
}
use billax.Errors.{err_missing_tenant_id, sentinel}
use billax.Calendar.{Time, before}
use billax.Plan.List.{Codecs, format_rfc3339_nano, decode_cursor}
use billax.Payment.{PaymentStatus, pending, succeeded, failed, refunded, Payment}
use billax.World.{World, Act, pure, lift, ◌>>=◌, ◌>>◌, check, wrapped, query}

pub record ListPaymentsInput : Type 0 where
  pub provider_name : Option Text
  pub statuses : List PaymentStatus
  pub limit : ℤ
  pub cursor : Text

-- `next_cursor` is empty where there is no further page.
pub record ListPaymentsResult : Type 0 where
  pub payments : List Payment
  pub next_cursor : Text

abbrev pub status_eq : PaymentStatus → PaymentStatus → Bool
status_eq pending pending = true
status_eq succeeded succeeded = true
status_eq failed failed = true
status_eq refunded refunded = true
status_eq _ _ = false

-- `status = ANY($n)`
abbrev pub is_one_of : List PaymentStatus → PaymentStatus → Bool
is_one_of [] status = false
is_one_of (s ∷ ss) status = status_eq s status || is_one_of ss status

abbrev pub has_status : List PaymentStatus → Payment → Bool
has_status [] p = true
has_status (s ∷ ss) p = is_one_of (s ∷ ss) p.status

abbrev pub has_provider : Option Text → Payment → Bool
has_provider none p = true
has_provider (some name) p = text_eq p.provider_name name

-- `(created_at, id) > ($1, $2)`
abbrev pub is_beyond : Option (Time × ℕ) → Payment → Bool
is_beyond none p = true
is_beyond (some (t, id)) p = before t p.created_at || not (before p.created_at t) && ltb id p.id

-- The conditions of the tenant and the filters, without that of the cursor.
unfoldable pub is_wanted : ℕ → ListPaymentsInput → Payment → Bool
unfolding text_eq
is_wanted tenant input p =
    p.tenant_id == tenant && has_provider input.provider_name p && has_status input.statuses p

-- `ORDER BY created_at DESC, id DESC`
unfoldable pub insert_payment : Payment → List Payment → List Payment
insert_payment p [] = p ∷ []
insert_payment p (q ∷ qs) =
    let later = insert_payment p qs in
    if is_beyond (some (q.created_at, q.id)) p then p ∷ q ∷ qs else q ∷ later

unfoldable pub sort_payments : List Payment → List Payment
unfolding insert_payment
sort_payments [] = []
sort_payments (p ∷ ps) = insert_payment p (sort_payments ps)

-- The SELECT, for one row more than the limit.
unfoldable pub rows_of : ℕ → ListPaymentsInput → ℕ → Option (Time × ℕ) → List Payment → List Payment
unfolding is_wanted sort_payments
rows_of tenant input limit start rows =
    take (suc limit)
      (sort_payments (select (is_beyond start) (select (is_wanted tenant input) rows)))

-- The limit of the repository, for one that is not negative.
abbrev pub page_limit : ℕ → ℕ
page_limit limit = if limit == 0 then 20 else if ltb 100 limit then 100 else limit

-- `Cap limit` of the service.
abbrev pub capped_limit : ℤ → ℕ
capped_limit (negsuc n) = 20
capped_limit (pos n) = if n == 0 then 20 else if ltb 100 n then 100 else n

module _ (c : Codecs) where
  -- The page of the rows that were fetched; the cursor is made of the extra row.
  abbrev pub payments_with : ℕ → List Payment → Option Payment → ListPaymentsResult
  payments_with limit rows none = record { payments = rows; next_cursor = [] }
  payments_with limit rows (some last) = record {
    payments = take limit rows;
    next_cursor =
        c.encode_base64 (format_rfc3339_nano last.created_at ++ (codes ":" ++ c.uuid_text last.id));
  }

  -- `List` of the repository
  unfoldable pub list_payment_rows : ℕ → ListPaymentsInput → ℕ → Act ListPaymentsResult
  unfolding decode_cursor query rows_of format_rfc3339_nano
  list_payment_rows tenant input limit w =
      (do
        start ← lift (decode_cursor c input.cursor)
        wrapped (codes "list payments") query
        let rows = rows_of tenant input (page_limit limit) start w.payments
        pure (payments_with (page_limit limit) rows (get_elem? rows (page_limit limit))))
        w

  -- `List` of the service
  unfoldable pub list_payments : ℕ → ListPaymentsInput → Act ListPaymentsResult
  unfolding list_payment_rows
  list_payments tenant input = do
    check (not (tenant == 0)) (sentinel err_missing_tenant_id)
    list_payment_rows tenant input (capped_limit input.limit)
