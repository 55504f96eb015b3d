-- ===== src/Plan/List.antt =====
-- `List` of internal/plan/repository.go and internal/plan/service.go, with its cursors. Base64, the
-- parsers of times and uuids, and the text of a uuid are parameters.
pub mod Cursors
use billax.Prelude.{
  ℕ, suc, ◌+◌, ◌/◌, ◌%◌, Bool, true, not, ◌&&◌, ◌||◌, Option, none, some, List, [], ◌∷◌, ◌++◌, ltb,
  ◌==◌, if◌then◌else◌, take, get_elem?, select, ℤ, pos, negsuc, Text, codes, text_eq,
}
use billax.Errors.{err_invalid_input, err_missing_tenant_id, sentinel}
use billax.Result.{Result, ok, err}
use billax.Calendar.{Time, before, two_digits, format_date}
use billax.Plan.{Plan}
use billax.World.{World, Act, pure, lift, ◌>>=◌, ◌>>◌, check, wrapped, query}

pub record Codecs : Type 0 where
  pub encode_base64 : Text → Text
  pub decode_base64 : Text → Option Text
  pub parse_rfc3339_nano : Text → Option Time
  pub parse_uuid : Text → Option ℕ
  pub uuid_text : ℕ → Text

pub record ListPlansInput : Type 0 where
  pub is_active : Option Bool
  pub limit : ℤ
  pub cursor : Text

-- `next_cursor` is empty where there is no further page.
pub record ListPlansResult : Type 0 where
  pub plans : List Plan
  pub next_cursor : Text

abbrev nine_digits : ℕ → Text
nine_digits n =
    two_digits (n / 10000000)
    ++ (two_digits (n / 100000)
        ++ (two_digits (n / 1000) ++ (two_digits (n / 10) ++ ((48 + n % 10) ∷ []))))

-- Trailing zeros are left off.
abbrev trim_zeros : Text → Text
trim_zeros [] = []
trim_zeros (c ∷ s) =
    let rest = trim_zeros s in if c == b'0' && text_eq rest [] then [] else c ∷ rest

abbrev fraction : ℕ → Text
fraction n = if n == 0 then [] else b'.' ∷ trim_zeros (nine_digits n)

-- `Format(time.RFC3339Nano)` of a time in UTC, in two parts: up to the hour, and the rest.
abbrev hour_text : Time → Text
hour_text t = format_date t ++ (b'T' ∷ two_digits (t.nanos / 3600000000000))

abbrev minute_text : Time → Text
minute_text t =
    b':' ∷ two_digits (t.nanos / 60000000000 % 60)
    ++ (b':' ∷ two_digits (t.nanos / 1000000000 % 60)
        ++ (fraction (t.nanos % 1000000000) ++ codes "Z"))

unfoldable pub format_rfc3339_nano : Time → Text
unfolding format_date text_eq
format_rfc3339_nano t = hour_text t ++ minute_text t

-- `strings.SplitN(s, ":", 2)` with two parts.
unfoldable pub split_colon : Text → Option (Text × Text)
split_colon [] = none
split_colon (c ∷ s) =
    let later = split_colon s in
    if c == b':' then some ([], s) else elim later [ none ↦ none | some p ↦ some (c ∷ p.0, p.1) ]

module _ (c : Codecs) where
  unfoldable pub encode_cursor : Plan → Text
  unfolding format_rfc3339_nano
  encode_cursor p =
      c.encode_base64 (format_rfc3339_nano p.created_at ++ (codes ":" ++ c.uuid_text p.id))

  abbrev cursor_of : Option Time → Option ℕ → Result (Option (Time × ℕ))
  cursor_of (some t) (some id) = ok (some (t, id))
  cursor_of _ _ = err (sentinel err_invalid_input)

  abbrev parse_parts : Option (Text × Text) → Result (Option (Time × ℕ))
  parse_parts none = err (sentinel err_invalid_input)
  parse_parts (some (time, id)) = cursor_of (c.parse_rfc3339_nano time) (c.parse_uuid id)

  abbrev parse_decoded : Option Text → Result (Option (Time × ℕ))
  parse_decoded none = err (sentinel err_invalid_input)
  parse_decoded (some decoded) = parse_parts (split_colon decoded)

  -- The decoding of the cursor; `none` if there is none.
  unfoldable pub decode_cursor : Text → Result (Option (Time × ℕ))
  unfolding split_colon
  decode_cursor [] = ok none
  decode_cursor (x ∷ s) = parse_decoded (c.decode_base64 (x ∷ s))

  -- `(created_at, id) > ($1, $2)`
  abbrev is_after : Option (Time × ℕ) → Plan → Bool
  is_after none p = true
  is_after (some (t, id)) p = before t p.created_at || not (before p.created_at t) && ltb id p.id

  abbrev has_active : Option Bool → Plan → Bool
  has_active none p = true
  has_active (some flag) p = if flag then p.is_active else not p.is_active

  -- `ORDER BY created_at ASC, id ASC`
  unfoldable pub insert_plan : Plan → List Plan → List Plan
  insert_plan p [] = p ∷ []
  insert_plan p (q ∷ qs) =
      let later = insert_plan p qs in
      if is_after (some (p.created_at, p.id)) q then p ∷ q ∷ qs else q ∷ later

  unfoldable pub sort_plans : List Plan → List Plan
  unfolding insert_plan
  sort_plans [] = []
  sort_plans (p ∷ ps) = insert_plan p (sort_plans ps)

  -- The page of the rows that were fetched, one more than the limit if there are as many. The cursor
  -- is made of that extra row.
  abbrev pub page_with : ℕ → List Plan → Option Plan → ListPlansResult
  page_with limit rows none = record { plans = rows; next_cursor = [] }
  page_with limit rows (some last) = record {
    plans = take limit rows;
    next_cursor = encode_cursor last;
  }

  unfoldable pub page_of : ℕ → List Plan → ListPlansResult
  unfolding encode_cursor
  page_of limit rows = page_with limit rows (get_elem? rows limit)

  abbrev pub repository_limit : ℕ → ℕ
  repository_limit limit = if limit == 0 then 20 else if ltb 100 limit then 100 else limit

  -- The rows of the SELECT, at most one more than the limit.
  unfoldable pub fetched : ℕ → ListPlansInput → ℕ → Option (Time × ℕ) → World → List Plan
  unfolding sort_plans
  fetched tenant input limit start w = take (suc limit) (
      sort_plans (
        select (λ p. p.tenant_id == tenant && has_active input.is_active p && is_after start p)
          w.plans))

  -- `List` of the repository.
  unfoldable pub list_rows : ℕ → ListPlansInput → ℕ → Act ListPlansResult
  unfolding decode_cursor query fetched page_of
  list_rows tenant input limit w =
      (do
        start ← lift (decode_cursor input.cursor)
        wrapped (codes "list plans") query
        pure (
            page_of (repository_limit limit)
              (fetched tenant input (repository_limit limit) start w)))
        w

  -- The limit that the service hands on.
  abbrev pub service_limit : ℤ → ℕ
  service_limit (negsuc n) = 20
  service_limit (pos n) = if n == 0 then 20 else if ltb 100 n then 100 else n

  -- `List` of the service.
  unfoldable pub list_plans : ℕ → ListPlansInput → Act ListPlansResult
  unfolding list_rows
  list_plans tenant input = do
    check (not (tenant == 0)) (sentinel err_missing_tenant_id)
    list_rows tenant input (service_limit input.limit)
