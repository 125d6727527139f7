-- ===== src/Quota.antt =====
-- internal/services/quota.go: storage quotas and the check that an upload fits in all of them. The
-- CAST of a text to an integer is the database's: it is the parameter `cast_int`.
pub mod Decimal
pub mod Check
pub mod Entities
pub mod Systems
mod Tests
use indelible.Common.{
  ℕ, suc, Bool, true, false, ◌&&◌, not, List, [], ◌∷◌, ◌++◌, Option, none, some, map, ◌==◌, ltb,
  if◌then◌else◌, find, any, keep, sum, length, Bytes, bytes_eq, text, Result, ok, err,
}
use indelible.Common.Int.{ℤ, pos, negsuc}
use indelible.Common.Sql.{update, delete, affected}
use indelible.Common.Joins.{flat_map, is_empty}
use indelible.Permission.{UserRow, Group, GroupMember, Directory}
use indelible.Token.{Token, Tokens}
use indelible.Upload.Row.{Upload, Status, queued, processing, completed, failed, already_stored}
use indelible.Quota.Decimal.{int64_to_string, parse_int}

-- The values that the CHECK of the column `entity_type` admits.
pub data EntityType : Type 0 where
  user group department system : EntityType

-- `UsedBytes` and the times are left out: the first is computed where a quota is read.
pub record Quota : Type 0 where
  pub id : ℕ
  pub entity_type : EntityType
  pub entity_id : Option Bytes
  pub max_bytes : ℤ
  pub is_enabled : Bool

pub record QuotaDb : Type 0 where
  pub quotas : List Quota
  pub quota_seq : ℕ
  pub uploads : List Upload
  pub tokens : Tokens
  pub directory : Directory

-- `scan_error` is a sum that does not fit an int64, `buffer_panic` an index out of range.
pub data QuotaError : Type 0 where
  quota_not_found quota_exceeded quota_duplicate entity_required entity_not_found : QuotaError
  invalid_entity_type scan_error buffer_panic : QuotaError

unfoldable pub type_eq : EntityType → EntityType → Bool
type_eq user user = true
type_eq group group = true
type_eq department department = true
type_eq system system = true
type_eq _ _ = false

-- `entity_id = ?`, which no NULL satisfies.
unfoldable pub entity_is : Bytes → Option Bytes → Bool
entity_is e none = false
entity_is e (some x) = bytes_eq x e

unfoldable pub equals : ℤ → ℕ → Bool
equals (pos n) m = m == n
equals (negsuc n) m = false

unfoldable pub status_eq : Status → Status → Bool
status_eq queued queued = true
status_eq processing processing = true
status_eq completed completed = true
status_eq failed failed = true
status_eq already_stored already_stored = true
status_eq _ _ = false

-- `status IN (…)`.
unfoldable pub status_in : List Status → Upload → Bool
status_in statuses u = any (λ s. status_eq s u.status) statuses

abbrev pub quota_completed_statuses : List Status
quota_completed_statuses = completed ∷ already_stored ∷ []

abbrev pub quota_in_flight_statuses : List Status
quota_in_flight_statuses = completed ∷ already_stored ∷ processing ∷ queued ∷ []

-- The name of an entity type in a request.
unfoldable pub entity_type_of : Bytes → Option EntityType
entity_type_of s =
    if bytes_eq s (text "system")
    then some system
    else if bytes_eq s (text "user")
    then some user
    else if bytes_eq s (text "group")
    then some group
    else if bytes_eq s (text "department")
    then some department
    else none

-- The rows that a query sums, one size for each row of its join.
unfoldable pub user_sizes : List Status → ℕ → List Upload → List ℕ
user_sizes statuses user_id us =
    map (λ u. u.file_size) (keep (λ u. u.user_id == user_id && status_in statuses u) us)

unfoldable pub system_sizes : List Status → List Upload → List ℕ
system_sizes statuses us = map (λ u. u.file_size) (keep (status_in statuses) us)

unfoldable pub group_sizes : List Status → ℤ → List GroupMember → List Upload → List ℕ
group_sizes statuses group_id ms us =
    flat_map
      (λ u.
        map (λ _. u.file_size)
          (keep (λ gm. gm.user_id == u.user_id && equals group_id gm.group_id) ms))
      (keep (status_in statuses) us)

unfoldable pub has_token : Option ℕ → ℕ → Bool
has_token none id = false
has_token (some t) id = t == id

unfoldable pub department_sizes : List Status → Bytes → List Token → List Upload → List ℕ
department_sizes statuses dept ts us =
    flat_map
      (λ u.
        map (λ _. u.file_size)
          (keep (λ t. has_token u.token_id t.id && entity_is dept t.department) ts))
      (keep (status_in statuses) us)

-- `SELECT COALESCE(SUM(…), 0)` scanned into an int64.
unfoldable pub scan_sum : List ℕ → Result QuotaError ℕ
scan_sum sizes = if ltb (sum sizes) 9223372036854775808 then ok (sum sizes) else err scan_error

-- The `used` that calcUsage leaves where the scan fails is 0.
unfoldable pub or_zero : Result QuotaError ℕ → ℕ
or_zero (ok n) = n
or_zero (err _) = 0

abbrev pub group_rows : QuotaDb → List GroupMember
group_rows db = db.directory.group_members

abbrev pub new_quota : ℕ → EntityType → Bytes → ℤ → Quota
new_quota id type e max_bytes = record {
  id = id;
  entity_type = type;
  entity_id = if is_empty e then none else some e;
  max_bytes = max_bytes;
  is_enabled = true;
}

-- UNIQUE(entity_type, entity_id): rows whose entity is NULL never conflict.
unfoldable pub same_entity : Option Bytes → Option Bytes → Bool
same_entity none o = false
same_entity (some e) o = entity_is e o

unfoldable pub conflicts : Quota → Quota → Bool
unfolding same_entity
conflicts q r = type_eq r.entity_type q.entity_type && same_entity q.entity_id r.entity_id

module _ (cast_int : Bytes → ℤ) where
  -- The sizes that calcUsage sums for a quota.
  unfoldable pub entity_sizes : QuotaDb → List Status → EntityType → Option Bytes → List ℕ
  unfolding user_sizes equals
  entity_sizes db statuses user none = []
  entity_sizes db statuses user (some e) =
      map (λ u. u.file_size)
        (keep (λ u. equals (cast_int e) u.user_id && status_in statuses u) db.uploads)
  entity_sizes db statuses group none = []
  entity_sizes db statuses group (some e) =
      group_sizes statuses (cast_int e) (group_rows db) db.uploads
  entity_sizes db statuses department none = []
  entity_sizes db statuses department (some e) =
      department_sizes statuses e db.tokens.rows db.uploads
  entity_sizes db statuses system _ = system_sizes statuses db.uploads

  unfoldable pub calc_usage : QuotaDb → EntityType → Option Bytes → ℕ
  unfolding entity_sizes scan_sum or_zero
  calc_usage db type entity =
      or_zero (scan_sum (entity_sizes db quota_completed_statuses type entity))

  -- A quota with its usage.
  unfoldable pub get_by_id : QuotaDb → ℕ → Result QuotaError (Quota × ℕ)
  unfolding calc_usage
  get_by_id db id = elim (find (λ q. q.id == id) db.quotas) [
    | none ↦ err quota_not_found
    | some q ↦ ok (q, calc_usage db q.entity_type q.entity_id)
  ]

  unfoldable pub system_quota : QuotaDb → Option (Quota × ℕ)
  unfolding calc_usage
  system_quota db = elim (find (λ q. type_eq q.entity_type system && q.is_enabled) db.quotas) [
    | none ↦ none
    | some q ↦ some (q, calc_usage db q.entity_type q.entity_id)
  ]

  unfoldable pub entity_exists : List ℕ → Bytes → Bool
  entity_exists ids e = elim (parse_int e) [
    | none ↦ false
    | some _ ↦ any (λ id. equals (cast_int e) id) ids
  ]

  -- The two switches of validateEntity, on the type that the name is of.
  unfoldable pub validate_type :
      QuotaDb → Option EntityType → Bytes → Result QuotaError (EntityType × Bytes)
  unfolding entity_exists
  validate_type db none e = err invalid_entity_type
  validate_type db (some system) e = ok (system, [])
  validate_type db (some user) e =
      if is_empty e
      then err entity_required
      else if entity_exists (map (λ u. u.id) db.directory.users) e
      then ok (user, e)
      else err entity_not_found
  validate_type db (some group) e =
      if is_empty e
      then err entity_required
      else if entity_exists (map (λ g. g.id) db.directory.groups) e
      then ok (group, e)
      else err entity_not_found
  validate_type db (some department) e =
      if is_empty e then err entity_required else ok (department, e)

  unfoldable pub validate_entity : QuotaDb → Bytes → Bytes → Result QuotaError (EntityType × Bytes)
  unfolding entity_type_of validate_type
  validate_entity db type e = validate_type db (entity_type_of type) e

  unfoldable pub insert_quota : QuotaDb → Quota → QuotaDb × Result QuotaError (Quota × ℕ)
  unfolding conflicts get_by_id
  insert_quota db q =
      let db' = record db { quotas = db.quotas ++ q ∷ []; quota_seq = q.id } in
      if any (conflicts q) db.quotas then (db, err quota_duplicate) else (db', get_by_id db' q.id)

  unfoldable pub create_quota :
      QuotaDb → Bytes → Bytes → ℤ → QuotaDb × Result QuotaError (Quota × ℕ)
  unfolding validate_entity insert_quota
  create_quota db type e max_bytes = elim (validate_entity db type e) [
    | err x ↦ (db, err x)
    | ok (t, e') ↦ insert_quota db (new_quota (suc db.quota_seq) t e' max_bytes)
  ]

  unfoldable pub update_quota : QuotaDb → ℕ → ℤ → Bool → QuotaDb × Result QuotaError (Quota × ℕ)
  unfolding get_by_id
  update_quota db id max_bytes is_enabled =
      let db' = record db {
        quotas =
            update (λ q. q.id == id)
              (λ q. record q { max_bytes = max_bytes; is_enabled = is_enabled }) db.quotas;
      } in
      (db', get_by_id db' id)

unfoldable pub delete_quota : QuotaDb → ℕ → QuotaDb × Option QuotaError
delete_quota db id = (
  record db { quotas = delete (λ q. q.id == id) db.quotas },
  if affected (λ q. q.id == id) db.quotas == 0 then some quota_not_found else none,
)
