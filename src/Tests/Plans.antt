-- ===== src/Tests/Plans.antt =====
-- The plan service.
use billax.Prelude.{
  ◌≡◌, refl, not, ◌&&◌, none, some, [], ◌∷◌, leb, ◌==◌, if◌then◌else◌, all, pos, codes, text_eq,
  is_space, trim_left, trim_space, lower_rune, to_lower, fold_case, ascii,
}
use billax.Result.{ok, err}
use billax.Validation.{add_all, err_of, non_empty, max_length, positive_int, contains, valid_enum}
use billax.Plan.{week, CreatePlanInput}
use billax.Plan.Slug.{
  is_alphanumeric_lower, is_slug_char, is_valid_slug_format, is_valid_slug_format_lem, slug_check,
  interval_check, validate_create_input,
}
use billax.Plan.Repository.{plan_ok}
use billax.Plan.Repository.Unique.{UniqueSlugs}
use billax.Plan.Service.{normalized, create_or_get}
use billax.Plan.Service.Outcomes.{IsAccepted, create_or_get-UniqueSlugs}
use billax.World.{World, query}
use billax.Plan.List.{
  Codecs, ListPlansInput, ListPlansResult, format_rfc3339_nano, encode_cursor, decode_cursor,
  insert_plan, sort_plans, page_of, fetched, list_rows, list_plans,
}
use billax.Plan.List.Cursors.{IsCodec, list_plans-next_cursor_refused}
use billax.Errors.{err_invalid_input, sentinel}
use billax.Calendar.{days_in, next_day, civil, format_date}
use billax.Tests.Data.{a_time, gold, a_world}

is_valid_slug_format_lem_example : is_valid_slug_format (codes "gold-1") ≡ (
    leb 1 6
    && leb 6 64
    && is_alphanumeric_lower b'g'
    && is_alphanumeric_lower b'1'
    && all is_slug_char (codes "gold-1"))
is_valid_slug_format_lem_example = is_valid_slug_format_lem (codes "gold-1")

abbrev silver_input : CreatePlanInput
silver_input = record {
  slug = codes " Silver";
  name = codes "Silver";
  description = [];
  amount = pos 500;
  currency = [];
  interval = week;
  interval_count = pos 0;
  trial_days = pos 0;
}

abbrev gold_input : CreatePlanInput
gold_input = record silver_input { slug = codes "GOLD" }

silver_accepted : IsAccepted ascii 7 silver_input
unfolding validate_create_input slug_check interval_check is_valid_slug_format fold_case to_lower
    trim_space trim_left is_space lower_rune text_eq err_of add_all non_empty max_length
    positive_int valid_enum contains plan_ok normalized
silver_accepted = record { has_tenant = refl; valid = refl; allowed = refl }

gold_accepted : IsAccepted ascii 7 gold_input
unfolding validate_create_input slug_check interval_check is_valid_slug_format fold_case to_lower
    trim_space trim_left is_space lower_rune text_eq err_of add_all non_empty max_length
    positive_int valid_enum contains plan_ok normalized
gold_accepted = record { has_tenant = refl; valid = refl; allowed = refl }

create_or_get-UniqueSlugs_example : UniqueSlugs (create_or_get ascii 7 gold_input a_world).1.plans
create_or_get-UniqueSlugs_example = create_or_get-UniqueSlugs ascii 7 gold_input a_world (tt, tt)

-- A codec that encodes by the identity, and takes any text with a colon for a time.
abbrev pub plain_codecs : Codecs
plain_codecs = record {
  encode_base64 = λ s. s;
  decode_base64 = λ s. some s;
  parse_rfc3339_nano = λ s. if all (λ x. not (x == b':')) s then none else some a_time;
  parse_uuid = λ s. some 4;
  uuid_text = λ id. codes "4";
}

plain_codecs-IsCodec : IsCodec plain_codecs
plain_codecs-IsCodec = record { inverse = λ s. refl; empty = refl; needs_colon = λ s h. rw h refl }

abbrev two_plans : World
two_plans = record a_world { plans = gold ∷ record gold { id = 4; slug = codes "vip" } ∷ [] }

abbrev first_page : ListPlansInput
first_page = record { is_active = none; limit = pos 1; cursor = [] }

abbrev first_result : ListPlansResult
first_result = record { plans = gold ∷ []; next_cursor = codes "2024-10-04T00:00:00Z:4" }

abbrev second_page : ListPlansInput
second_page = record first_page { cursor = codes "2024-10-04T00:00:00Z:4" }

first_listed : (list_plans plain_codecs 7 first_page two_plans).0 ≡ ok first_result
unfolding list_plans list_rows decode_cursor query fetched sort_plans insert_plan page_of
    encode_cursor format_rfc3339_nano format_date civil text_eq next_day days_in
first_listed = refl

list_plans-next_cursor_refused_example :
    list_plans plain_codecs 7 second_page two_plans ≡ (err (sentinel err_invalid_input), two_plans)
list_plans-next_cursor_refused_example =
    list_plans-next_cursor_refused plain_codecs plain_codecs-IsCodec 7 7 first_page second_page
      two_plans two_plans first_result first_listed (λ e. cc) refl refl
