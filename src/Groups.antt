-- ===== src/Groups.antt =====
-- internal/services/group.go: groups and their members, on the directory that permissions read. The
-- column permission_level admits read, write and admin; the level `unset` stands for an empty string.
pub mod Members
pub mod Pairs
pub mod Roster
pub mod Listed
mod Tests
use indelible.Common.{
  ℕ, suc, Bool, true, false, ◌&&◌, ◌||◌, not, List, [], ◌∷◌, ◌++◌, Option, none, some, map, ◌==◌,
  if◌then◌else◌, find, any, keep, length, Bytes, bytes_eq, Result, ok, err,
}
use indelible.Common.Sql.{update, delete, affected}
use indelible.Common.Joins.{is_empty, flat_map}
use indelible.Permission.{Level, unset, Group, GroupMember, Directory}

-- `constraint_error` is a violation of UNIQUE, CHECK or a foreign key that the code passes on as it is.
pub data GroupError : Type 0 where
  group_not_found group_name_taken already_member not_member constraint_error : GroupError

unfoldable pub get_group : Directory → ℕ → Result GroupError Group
get_group db id = elim (find (λ g. g.id == id) db.groups) [
  | none ↦ err group_not_found
  | some g ↦ ok g
]

abbrev pub has_external_id : Bytes → Group → Bool
has_external_id x g = elim g.external_id [ none ↦ false | some y ↦ bytes_eq y x ]

unfoldable pub get_by_external_id : Directory → Bytes → Result GroupError Group
get_by_external_id db x = elim (find (has_external_id x) db.groups) [
  | none ↦ err group_not_found
  | some g ↦ ok g
]

-- The groups of a user, before they are sorted by name.
unfoldable pub list_by_user : Directory → ℕ → List Group
list_by_user db user_id =
    flat_map
      (λ g.
        map (λ _. g) (keep (λ gm. gm.group_id == g.id && gm.user_id == user_id) db.group_members))
      db.groups

abbrev pub new_group : ℕ → Bytes → Bytes → Level → ℕ → Group
new_group id name description level now = record {
  id = id;
  name = name;
  description = description;
  permission_level = level;
  is_active = true;
  external_id = none;
  updated_at = now;
}

-- The CHECK of the level, which refuses the empty string.
abbrev pub is_unset : Level → Bool
is_unset unset = true
is_unset l = false

unfoldable pub create_group :
    Directory → Bytes → Bytes → Level → ℕ → Directory × Result GroupError Group
unfolding get_group
create_group db name description level now =
    if any (λ g. bytes_eq g.name name) db.groups
    then (db, err group_name_taken)
    else if is_unset level
    then (db, err constraint_error)
    else let id = suc db.group_seq in
      let db' = record db {
        groups = db.groups ++ new_group id name description level now ∷ [];
        group_seq = id;
      } in
      (db', get_group db' id)

abbrev pub or_level : Level → Level → Level
or_level unset old = old
or_level l old = l

abbrev pub or_bytes : Bytes → Bytes → Bytes
or_bytes s old = if is_empty s then old else s

abbrev pub or_active : Option Bool → Bool → Bool
or_active none old = old
or_active (some b) old = b

-- The row that Update writes: what is given, and the old values for what is left empty.
unfoldable pub merged : Group → Bytes → Bytes → Level → Option Bool → ℕ → Group
merged g name description level is_active now = record g {
  name = or_bytes name g.name;
  description = or_bytes description g.description;
  permission_level = or_level level g.permission_level;
  is_active = or_active is_active g.is_active;
  updated_at = now;
}

-- The UNIQUE of the name: no other group has it.
unfoldable pub name_taken : Directory → ℕ → Bytes → Bool
name_taken db id name = any (λ g. not (g.id == id) && bytes_eq g.name name) db.groups

unfoldable pub update_group :
    Directory → ℕ → Bytes → Bytes → Level → Option Bool → ℕ → Directory × Option GroupError
unfolding get_group merged name_taken
update_group db id name description level is_active now = elim (get_group db id) [
  | err x ↦ (db, some x)
  | ok g ↦
      let g' = merged g name description level is_active now in
      if name_taken db id g'.name then (db, some constraint_error) else (
        record db {
          groups =
              update (λ r. r.id == id)
                (λ r. record r {
                  name = g'.name;
                  description = g'.description;
                  permission_level = g'.permission_level;
                  is_active = g'.is_active;
                  updated_at = now;
                })
                db.groups;
        },
        none,
      )
]

-- Two statements, without a transaction. `referenced` says whether a row of another table, an OIDC
-- provider's default group, refers to the group: the second statement then fails.
unfoldable pub delete_group : Directory → ℕ → Bool → Directory × Option GroupError
delete_group db id referenced =
    let db' = record db { group_members = delete (λ gm. gm.group_id == id) db.group_members } in
    if referenced && any (λ g. g.id == id) db.groups
    then (db', some constraint_error)
    else (record db' { groups = delete (λ g. g.id == id) db.groups }, none)

unfoldable pub nullable_added_by : ℕ → Option ℕ
nullable_added_by id = if id == 0 then none else some id

abbrev pub is_pair : ℕ → ℕ → GroupMember → Bool
is_pair group_id user_id gm = gm.group_id == group_id && gm.user_id == user_id

abbrev pub new_member : ℕ → ℕ → Option ℕ → GroupMember
new_member group_id user_id added_by = record {
  group_id = group_id;
  user_id = user_id;
  added_by = added_by;
}

-- The foreign keys of a membership: its group, its user, and the user who adds it, if any.
unfoldable pub references : Directory → ℕ → ℕ → Option ℕ → Bool
references db group_id user_id added_by =
    any (λ g. g.id == group_id) db.groups
    && any (λ u. u.id == user_id) db.users
    && (elim added_by [ none ↦ true | some a ↦ any (λ u. u.id == a) db.users ])

unfoldable pub add_member : Directory → ℕ → ℕ → ℕ → Directory × Option GroupError
unfolding nullable_added_by references
add_member db group_id user_id added_by =
    if any (is_pair group_id user_id) db.group_members
    then (db, some already_member)
    else if not (references db group_id user_id (nullable_added_by added_by))
    then (db, some constraint_error)
    else (
      record db {
        group_members =
            db.group_members ++ new_member group_id user_id (nullable_added_by added_by) ∷ [];
      },
      none,
    )

unfoldable pub remove_member : Directory → ℕ → ℕ → Directory × Option GroupError
remove_member db group_id user_id = (
  record db { group_members = delete (is_pair group_id user_id) db.group_members },
  if affected (is_pair group_id user_id) db.group_members == 0 then some not_member else none,
)

-- Without an ORDER BY: `arrange` is the order in which the rows come.
unfoldable pub list_members : (List ℕ → List ℕ) → Directory → ℕ → List ℕ
list_members arrange db group_id =
    arrange (map (λ gm. gm.user_id) (keep (λ gm. gm.group_id == group_id) db.group_members))

unfoldable pub member_count : Directory → ℕ → ℕ
member_count db group_id = length (keep (λ gm. gm.group_id == group_id) db.group_members)

unfoldable pub set_external_id : Directory → ℕ → Bytes → ℕ → Directory × Option GroupError
set_external_id db id x now =
    if any (λ g. not (g.id == id) && has_external_id x g) db.groups
      && any (λ g. g.id == id) db.groups
    then (db, some constraint_error)
    else (
      record db {
        groups =
            update (λ g. g.id == id) (λ g. record g { external_id = some x; updated_at = now })
              db.groups;
      },
      none,
    )

-- The loop of inserts; none where a pair is there already or a foreign key is missing.
unfoldable pub insert_members :
    Directory → ℕ → Option ℕ → List GroupMember → List ℕ → Option (List GroupMember)
insert_members db group_id added ms [] = some ms
insert_members db group_id added ms (u ∷ us) =
    let rest = insert_members db group_id added (ms ++ new_member group_id u added ∷ []) us in
    if any (is_pair group_id u) ms || not (references db group_id u added) then none else rest

-- The end of the transaction: it is rolled back where an insert fails.
unfoldable pub commit : Directory → Option (List GroupMember) → Directory × Option GroupError
commit db none = (db, some constraint_error)
commit db (some ms) = (record db { group_members = ms }, none)

unfoldable pub replace_members : Directory → ℕ → List ℕ → ℕ → Directory × Option GroupError
unfolding insert_members nullable_added_by
replace_members db group_id user_ids added_by = commit db (
    insert_members db group_id (nullable_added_by added_by)
      (delete (λ gm. gm.group_id == group_id) db.group_members) user_ids)
