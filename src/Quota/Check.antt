-- ===== src/Quota/Check.antt =====
-- The check of internal/services/quota.go that an upload fits: the tiers of user, groups, department
-- and system in turn, in one transaction.
pub mod Tiers
pub mod Each
pub mod Allowed
pub mod InFlight
use indelible.Common.{
  ℕ, ◌+◌, ◌-◌, ◌%◌, Bool, true, false, ◌&&◌, List, [], ◌∷◌, Option, none, some, map, ◌==◌,
  if◌then◌else◌, find, keep, Bytes, Result, ok, err,
}
use indelible.Common.Int.{ℤ, pos, ltb_ℤ, to_int64}
use indelible.Common.Joins.{flat_map, is_empty}
use indelible.Permission.{GroupMember}
use indelible.Token.{Token}
use indelible.Upload.Row.{Status}
use indelible.Quota.Decimal.{int64_to_string}
use indelible.Quota.{
  EntityType, user, group, department, system, Quota, QuotaDb, QuotaError, quota_exceeded,
  buffer_panic, type_eq, entity_is, equals, user_sizes, system_sizes, group_sizes, department_sizes,
  scan_sum, group_rows, quota_completed_statuses, quota_in_flight_statuses,
}

unfoldable pub matches_entity : EntityType → Option Bytes → Quota → Bool
matches_entity type none q = type_eq q.entity_type type && q.is_enabled
matches_entity type (some e) q =
    type_eq q.entity_type type && entity_is e q.entity_id && q.is_enabled

-- The first enabled quota of that type, and of that entity where one is given.
unfoldable pub lookup_quota_limit : QuotaDb → EntityType → Option Bytes → Option ℤ
lookup_quota_limit db type entity = elim (find (matches_entity type entity) db.quotas) [
  | none ↦ none
  | some q ↦ some q.max_bytes
]

-- `used+fileSize > maxBytes` on int64, for a used and a size that are below 2^63.
unfoldable pub exceeds : ℕ → ℕ → ℤ → Bool
exceeds used file_size max_bytes =
    ltb_ℤ max_bytes (to_int64 ((used + file_size) % 18446744073709551616))

-- The sum of a tier against its limit.
unfoldable pub check_sum : List ℕ → ℕ → ℤ → Option QuotaError
check_sum sizes file_size max_bytes = elim (scan_sum sizes) [
  | err x ↦ some x
  | ok used ↦ if exceeds used file_size max_bytes then some quota_exceeded else none
]

-- A tier with no limit lets everything pass.
unfoldable pub check_limit : Option ℤ → List ℕ → ℕ → Option QuotaError
check_limit none sizes file_size = none
check_limit (some max_bytes) sizes file_size = check_sum sizes file_size max_bytes

-- The user's tier, for the user id in its printed form.
unfoldable pub check_user : QuotaDb → ℕ → ℕ → List Status → Option Bytes → Option QuotaError
check_user db user_id file_size statuses none = some buffer_panic
check_user db user_id file_size statuses (some e) =
    check_limit (lookup_quota_limit db user (some e)) (user_sizes statuses user_id db.uploads)
      file_size

unfoldable pub check_user_tier : QuotaDb → ℕ → ℕ → List Status → Option QuotaError
check_user_tier db user_id file_size statuses =
    check_user db user_id file_size statuses (int64_to_string (pos user_id))

unfoldable pub check_system_tier : QuotaDb → ℕ → List Status → Option QuotaError
check_system_tier db file_size statuses =
    check_limit (lookup_quota_limit db system none) (system_sizes statuses db.uploads) file_size

-- The token that an upload names, if there is one of that id, and its department.
unfoldable pub department_of : List Token → Option ℕ → Option Bytes
department_of ts none = none
department_of ts (some id) = elim (find (λ t. t.id == id) ts) [
  | none ↦ none
  | some t ↦ t.department
]

unfoldable pub check_department : QuotaDb → Option Bytes → ℕ → List Status → Option QuotaError
check_department db none file_size statuses = none
check_department db (some dept) file_size statuses =
    if is_empty dept
    then none
    else check_limit (lookup_quota_limit db department (some dept))
        (department_sizes statuses dept db.tokens.rows db.uploads) file_size

unfoldable pub check_department_tier : QuotaDb → Option ℕ → ℕ → List Status → Option QuotaError
check_department_tier db token_id file_size statuses =
    check_department db (department_of db.tokens.rows token_id) file_size statuses

-- The first error of two checks in turn.
unfoldable pub or_else : Option QuotaError → Option QuotaError → Option QuotaError
or_else none y = y
or_else (some x) y = some x

module _ (cast_int : Bytes → ℤ) where
  -- The rows of the join of the enabled group quotas with the memberships of the user.
  unfoldable pub join_entity : ℕ → List GroupMember → Quota → Option Bytes → List (Bytes × ℤ)
  join_entity user_id ms q none = []
  join_entity user_id ms q (some e) =
      if type_eq q.entity_type group && q.is_enabled
      then map (λ _. (e, q.max_bytes))
          (keep (λ gm. equals (cast_int e) gm.group_id && gm.user_id == user_id) ms)
      else []

  unfoldable pub joined_quotas : ℕ → List GroupMember → Quota → List (Bytes × ℤ)
  joined_quotas user_id ms q = join_entity user_id ms q q.entity_id

  -- The loop over them.
  unfoldable pub check_groups : QuotaDb → ℕ → List Status → List (Bytes × ℤ) → Option QuotaError
  check_groups db file_size statuses [] = none
  check_groups db file_size statuses ((e, max_bytes) ∷ gqs) =
      or_else
        (check_sum (group_sizes statuses (cast_int e) (group_rows db) db.uploads) file_size
          max_bytes)
        (check_groups db file_size statuses gqs)

  unfoldable pub check_group_tier : QuotaDb → ℕ → ℕ → List Status → Option QuotaError
  unfolding joined_quotas check_groups
  check_group_tier db user_id file_size statuses =
      check_groups db file_size statuses
        (flat_map (joined_quotas user_id (group_rows db)) db.quotas)

  unfoldable pub check_all_tiers : QuotaDb → ℕ → Option ℕ → ℕ → List Status → Option QuotaError
  unfolding check_group_tier
  check_all_tiers db user_id token_id file_size statuses =
      or_else (check_user_tier db user_id file_size statuses) (
        or_else (check_group_tier db user_id file_size statuses) (
          or_else (check_department_tier db token_id file_size statuses)
            (check_system_tier db file_size statuses)))

  unfoldable pub check_user_quota : QuotaDb → ℕ → Option ℕ → ℕ → Option QuotaError
  unfolding check_all_tiers
  check_user_quota db user_id token_id file_size =
      check_all_tiers db user_id token_id file_size quota_completed_statuses

  unfoldable pub check_user_quota_in_flight : QuotaDb → ℕ → Option ℕ → ℕ → Option QuotaError
  unfolding check_all_tiers
  check_user_quota_in_flight db user_id token_id file_size =
      check_all_tiers db user_id token_id file_size quota_in_flight_statuses
