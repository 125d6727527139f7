-- ===== src/Permission.antt =====
-- internal/services/permission.go: the permission levels of users, direct and by group, and the
-- administrators. The tables users, user_permissions, groups and group_members are lists of rows.
pub mod Effective
pub mod Admins
mod Tests
use indelible.Common.{
  ℕ, suc, Bool, true, false, ◌&&◌, ◌||◌, not, List, [], ◌∷◌, ◌++◌, Option, none, some, map, leb,
  ◌==◌, if◌then◌else◌, keep, find, any, elem, Bytes,
}
use indelible.Common.Sql.{update}
use indelible.Common.Joins.{or_null, flat_map}

-- The values of `permission_level`; `unset` is the empty string.
pub data Level : Type 0 where
  unset read write admin : Level

-- The columns of `users` that permissions read.
pub record UserRow : Type 0 where
  pub id : ℕ
  pub is_active : Bool
  pub deleted_at : Option ℕ

pub record PermissionRow : Type 0 where
  pub user_id : ℕ
  pub permission_level : Level
  pub granted_by : ℕ
  pub created_at : ℕ

pub record Group : Type 0 where
  pub id : ℕ
  pub name : Bytes
  pub description : Bytes
  pub permission_level : Level
  pub is_active : Bool
  pub external_id : Option Bytes
  pub updated_at : ℕ

pub record GroupMember : Type 0 where
  pub group_id : ℕ
  pub user_id : ℕ
  pub added_by : Option ℕ

-- `group_seq` is the AUTOINCREMENT counter of `groups`.
pub record Directory : Type 0 where
  pub users : List UserRow
  pub user_permissions : List PermissionRow
  pub groups : List Group
  pub group_members : List GroupMember
  pub group_seq : ℕ

-- The map of `highest`, and the CASE of the ORDER BY.
unfoldable pub rank : Level → ℕ
rank unset = 0
rank read = 1
rank write = 2
rank admin = 3

unfoldable pub is_admin_level : Level → Bool
is_admin_level admin = true
is_admin_level _ = false

unfoldable pub highest : Level → Level → Level
unfolding rank
highest a b = if leb (rank b) (rank a) then a else b

-- The upsert: `INSERT … ON CONFLICT(user_id) DO UPDATE`. `none` is the CHECK constraint, which
-- refuses the empty level, or a foreign key: the user and the granting user must exist.
unfoldable pub set_direct : Directory → ℕ → Level → ℕ → ℕ → Option Directory
unfolding update
set_direct db user_id unset granted_by now = none
set_direct db user_id level granted_by now =
    if not (any (λ u. u.id == user_id) db.users && any (λ u. u.id == granted_by) db.users)
    then none
    else some (record db {
      user_permissions =
          if any (λ r. r.user_id == user_id) db.user_permissions
          then update (λ r. r.user_id == user_id)
              (λ r. record r {
                permission_level = level;
                granted_by = granted_by;
                created_at = now;
              })
              db.user_permissions
          else db.user_permissions
            ++ record {
              user_id = user_id;
              permission_level = level;
              granted_by = granted_by;
              created_at = now;
            }
              ∷ [];
    })

abbrev pub level_of : Option PermissionRow → Level
level_of none = unset
level_of (some r) = r.permission_level

unfoldable pub get_direct : Directory → ℕ → Level
get_direct db user_id = level_of (find (λ r. r.user_id == user_id) db.user_permissions)

-- The levels of `groups g JOIN group_members gm` for one user, active groups only.
unfoldable pub group_levels : ℕ → List GroupMember → List Group → List Level
group_levels user_id members [] = []
group_levels user_id members (g ∷ groups) =
    (if g.is_active
      then map (λ _. g.permission_level)
          (keep (λ gm. gm.group_id == g.id && gm.user_id == user_id) members)
      else [])
    ++ group_levels user_id members groups

-- `ORDER BY CASE … DESC LIMIT 1`, `unset` where no row came back.
unfoldable pub top_level : List Level → Level
unfolding highest
top_level [] = unset
top_level (l ∷ ls) = highest l (top_level ls)

unfoldable pub get_effective : Directory → ℕ → Level
unfolding get_direct group_levels top_level highest
get_effective db user_id =
    highest (get_direct db user_id) (top_level (group_levels user_id db.group_members db.groups))

unfoldable pub is_admin : Directory → ℕ → Bool
unfolding get_effective is_admin_level
is_admin db user_id = is_admin_level (get_effective db user_id)

-- `LEFT JOIN groups g ON g.id = gm.group_id AND g.is_active = TRUE`.
unfoldable pub joined_groups : List Group → Option GroupMember → List (Option Group)
joined_groups groups none = none ∷ []
joined_groups groups (some gm) = or_null (keep (λ g. g.id == gm.group_id && g.is_active) groups)

abbrev pub admin_permission : Option PermissionRow → Bool
admin_permission none = false
admin_permission (some up) = is_admin_level up.permission_level

abbrev pub admin_group : Option Group → Bool
admin_group none = false
admin_group (some g) = is_admin_level g.permission_level

abbrev pub is_live : UserRow → Bool
is_live u = u.is_active && (elim u.deleted_at [ none ↦ true | some _ ↦ false ])

-- The WHERE clause.
abbrev pub passes : Bool → Option PermissionRow × Option Group → Bool
passes live row = live && (admin_permission row.0 || admin_group row.1)

-- The joined rows of one user that pass the WHERE clause.
unfoldable pub admin_rows : Directory → UserRow → List (Option PermissionRow × Option Group)
unfolding joined_groups is_admin_level
admin_rows db u =
    let ups = or_null (keep (λ r. r.user_id == u.id) db.user_permissions) in
    let gms = or_null (keep (λ gm. gm.user_id == u.id) db.group_members) in
    let gs = flat_map (joined_groups db.groups) gms in
    keep (passes (is_live u)) (flat_map (λ up. map (λ g. (up, g)) gs) ups)

-- `COUNT(DISTINCT id)`.
unfoldable pub distinct_count : List ℕ → ℕ
distinct_count [] = 0
distinct_count (x ∷ xs) = let rest = distinct_count xs in if elem x xs then rest else suc rest

unfoldable pub count_admins : Directory → ℕ
unfolding admin_rows distinct_count
count_admins db = distinct_count (flat_map (λ u. map (λ _. u.id) (admin_rows db u)) db.users)
