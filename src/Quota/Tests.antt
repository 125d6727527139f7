-- ===== src/Quota/Tests.antt =====
-- User 7 of group 3 with a quota of their own, one of the group, and one of the system.
use indelible.Common.{
  ℕ, ◌≡◌, ◌↔◌, refl, true, false, List, [], ◌∷◌, Option, none, some, arith, Bytes, bytes_eq, text,
  ok,
}
use indelible.Common.Int.{ℤ, pos, negsuc}
use indelible.Upload.Row.{NewUpload, fresh, private, completed, already_stored, processing, queued}
use indelible.Quota.{
  user, group, system, QuotaDb, quota_exceeded, quota_completed_statuses, quota_in_flight_statuses,
  create_quota, calc_usage, new_quota, conflicts, same_entity, entity_sizes, type_eq, entity_is,
  scan_sum, user_sizes, status_in, status_eq, department_sizes, equals, group_sizes, has_token,
  system_sizes,
}
use indelible.Quota.Decimal.{
  int64_to_string, parse_int, minus, digits, unsigned, parse_digits, in_range,
}
use indelible.Quota.Decimal.RoundTrip.{parse_int-int64_to_string}
use indelible.Quota.Check.{
  check_all_tiers, check_user_quota, check_user_quota_in_flight, or_else, check_user_tier,
  check_user, check_limit, lookup_quota_limit, matches_entity, check_sum, exceeds, check_department,
  check_department_tier, check_group_tier, check_groups, check_system_tier, department_of,
  join_entity, joined_quotas,
}
use indelible.Quota.Check.Tiers.{Unambiguous, twins, CastsIntegers, InBounds}
use indelible.Quota.Check.Allowed.{Allowed, check_all_tiers-Allowed}
use indelible.Quota.Check.InFlight.{check_user_quota-in_flight}
use indelible.Quota.Entities.{
  WellFormed, NoConflict, Call, create_call, update_call, delete_call, run, run-WellFormed,
}
use indelible.Quota.Systems.{with_system, create_quota-system}

-- A CAST that reads what ParseInt reads, and is 0 elsewhere.
abbrev or_0 : Option ℤ → ℤ
or_0 none = pos 0
or_0 (some z) = z

abbrev cast : Bytes → ℤ
cast s = or_0 (parse_int s)

cast-CastsIntegers : CastsIntegers cast
cast-CastsIntegers s z h = rw h refl

abbrev sized : ℕ → NewUpload
sized n = record {
  uuid = text "u";
  user_id = 7;
  token_id = none;
  filename = text "f";
  original_filename = text "f";
  file_size = n;
  content_type = [];
  visibility = private;
  temp_path = text "/tmp/f";
  estimated_cost = none;
}

-- 100 bytes stored and 50 queued, of 160 for the user, 200 for the group and 1000 for all.
abbrev site : QuotaDb
site = record {
  quotas =
      new_quota 1 user (text "7") (pos 160)
      ∷ new_quota 2 group (text "3") (pos 200)
      ∷ new_quota 3 system [] (pos 1000)
      ∷ [];
  quota_seq = 3;
  uploads = record (fresh (sized 100) 1 0) { status = completed } ∷ fresh (sized 50) 2 0 ∷ [];
  tokens = record { rows = []; seq = 0; users = [] };
  directory = record {
    users = record { id = 7; is_active = true; deleted_at = none } ∷ [];
    user_permissions = [];
    groups = [];
    group_members = record { group_id = 3; user_id = 7; added_by = none } ∷ [];
    group_seq = 3;
  };
}

accepted : check_user_quota cast site 7 none 60 ≡ none
unfolding check_user_quota check_all_tiers or_else check_user_tier check_user int64_to_string minus
    digits check_limit lookup_quota_limit matches_entity type_eq entity_is bytes_eq check_sum
    scan_sum user_sizes status_in status_eq exceeds check_department check_department_tier
    check_group_tier check_groups check_system_tier department_of join_entity joined_quotas
    department_sizes equals group_sizes has_token system_sizes parse_int unsigned parse_digits
    in_range
accepted = refl

refused : check_user_quota_in_flight cast site 7 none 60 ≡ some quota_exceeded
unfolding check_user_quota_in_flight check_all_tiers or_else check_user_tier check_user
    int64_to_string minus digits check_limit lookup_quota_limit matches_entity type_eq entity_is
    bytes_eq check_sum scan_sum user_sizes status_in status_eq exceeds check_department
    check_department_tier check_group_tier check_groups check_system_tier department_of join_entity
    joined_quotas department_sizes equals group_sizes has_token system_sizes parse_int unsigned
    parse_digits in_range
refused = refl

accepted_in_flight : check_user_quota_in_flight cast site 7 none 10 ≡ none
unfolding check_user_quota_in_flight check_all_tiers or_else check_user_tier check_user
    int64_to_string minus digits check_limit lookup_quota_limit matches_entity type_eq entity_is
    bytes_eq check_sum scan_sum user_sizes status_in status_eq exceeds check_department
    check_department_tier check_group_tier check_groups check_system_tier department_of join_entity
    joined_quotas department_sizes equals group_sizes has_token system_sizes parse_int unsigned
    parse_digits in_range
accepted_in_flight = refl

-- A user quota whose entity is not the printed id is never found, though it casts to the id.
unheeded :
    check_user_quota cast
      (record site { quotas = new_quota 1 user (text "07") (pos 0) ∷ [] })
      7
      none
      60
    ≡ none
unfolding check_user_quota check_all_tiers or_else check_user_tier check_user int64_to_string minus
    digits check_limit lookup_quota_limit matches_entity type_eq entity_is bytes_eq check_sum
    scan_sum user_sizes status_in status_eq exceeds check_department check_department_tier
    check_group_tier check_groups check_system_tier department_of join_entity joined_quotas
    department_sizes equals group_sizes has_token system_sizes parse_int unsigned parse_digits
    in_range
unheeded = refl

least : int64_to_string (negsuc 9223372036854775807) ≡ some (text "-")
unfolding int64_to_string minus digits
least = refl

site-Unambiguous : Unambiguous site.quotas
unfolding twins same_entity type_eq entity_is bytes_eq
site-Unambiguous = (refl, (refl, (refl, tt)))

site-InBounds : InBounds cast site quota_completed_statuses 60
unfolding entity_sizes equals group_sizes system_sizes status_in status_eq parse_int unsigned
    parse_digits in_range
site-InBounds = (omega arith, (omega arith, (omega arith, tt)))

site-InBounds_in_flight : InBounds cast site quota_in_flight_statuses 10
unfolding entity_sizes equals group_sizes system_sizes status_in status_eq parse_int unsigned
    parse_digits in_range
site-InBounds_in_flight = (omega arith, (omega arith, (omega arith, tt)))

site-NoConflict : NoConflict site.quotas
unfolding NoConflict conflicts same_entity type_eq entity_is bytes_eq
site-NoConflict = ((refl, (refl, tt)), ((refl, tt), (tt, tt)))

parse_int-int64_to_string_example :
    (s : Bytes) × (int64_to_string (negsuc 41) ≡ some s) × (parse_int s ≡ some (negsuc 41))
parse_int-int64_to_string_example =
    parse_int-int64_to_string (negsuc 41) (omega arith) (omega arith)

check_all_tiers-Allowed_example :
    (check_all_tiers cast site 7 none 60 quota_completed_statuses ≡ none)
    ↔ Allowed cast site 7 none 60 quota_completed_statuses
check_all_tiers-Allowed_example =
    check_all_tiers-Allowed cast site 7 none 60 quota_completed_statuses cast-CastsIntegers
      (omega arith) site-InBounds site-Unambiguous

check_user_quota-in_flight_example :
    ((check_user_quota_in_flight cast site 7 none 10 ≡ none)
      ↔ Allowed cast site 7 none 10 (completed ∷ already_stored ∷ processing ∷ queued ∷ []))
    × ((check_user_quota cast site 7 none 10 ≡ none)
        ↔ Allowed cast site 7 none 10 (completed ∷ already_stored ∷ []))
    × (check_user_quota_in_flight cast site 7 none 10 ≡ none
        → check_user_quota cast site 7 none 10 ≡ none)
check_user_quota-in_flight_example =
    check_user_quota-in_flight cast site 7 none 10 cast-CastsIntegers (omega arith)
      site-InBounds_in_flight site-Unambiguous

site-WellFormed : WellFormed site
site-WellFormed = record {
  proper_rows = (refl, (refl, (refl, tt)));
  bounded = (omega arith, (omega arith, (omega arith, tt)));
  unique = site-NoConflict;
}

abbrev calls : List Call
calls =
    create_call (text "user") (text "7") (pos 9) ∷ delete_call 2 ∷ update_call 1 (pos 5) false ∷ []

run-WellFormed_example : WellFormed (run cast site calls)
run-WellFormed_example = run-WellFormed cast site calls site-WellFormed

create_quota-system_example : create_quota cast site (text "system") [] (pos 5) ≡ (
  with_system site (pos 5),
  ok (new_quota 4 system [] (pos 5), calc_usage cast (with_system site (pos 5)) system none),
)
create_quota-system_example = create_quota-system cast site [] (pos 5) site-WellFormed
