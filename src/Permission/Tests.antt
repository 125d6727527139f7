-- ===== src/Permission/Tests.antt =====
-- A small directory: user 1 is an administrator by group 7, user 2 a writer, user 3 inactive.
use indelible.Common.{
  ◌≤◌, ◌≡◌, ◌↔◌, refl, true, false, ◌&&◌, ◌||◌, [], ◌∷◌, some, none, any, length, keep, text,
}
use indelible.Permission.{
  read, write, admin, Directory, rank, is_admin_level, set_direct, get_direct, get_effective,
  is_admin, is_live, count_admins,
}
use indelible.Permission.Effective.{
  is_member, is_admin_lem, GroupsAtMost, get_effective_le_iff, Sets, set_direct-Sets,
}
use indelible.Permission.Admins.{count_admins_lem}

abbrev office : Directory
office = record {
  users =
      record { id = 1; is_active = true; deleted_at = none }
      ∷ record { id = 2; is_active = true; deleted_at = none }
      ∷ record { id = 3; is_active = false; deleted_at = none }
      ∷ [];
  user_permissions =
      record { user_id = 2; permission_level = write; granted_by = 1; created_at = 0 }
      ∷ record { user_id = 3; permission_level = admin; granted_by = 1; created_at = 0 }
      ∷ [];
  groups =
      record {
        id = 7;
        name = text "ops";
        description = [];
        permission_level = admin;
        is_active = true;
        external_id = none;
        updated_at = 0;
      }
      ∷ [];
  group_members =
      record { group_id = 7; user_id = 1; added_by = none }
      ∷ record { group_id = 7; user_id = 3; added_by = none }
      ∷ [];
  group_seq = 7;
}

office_admins : count_admins office ≡ 1
unfolding count_admins
office_admins = refl

is_admin_lem_example : is_admin office 1 ≡ (
    is_admin_level (get_direct office 1)
    || any
        (λ g. g.is_active && is_admin_level g.permission_level && is_member office 1 g)
        office.groups)
is_admin_lem_example = is_admin_lem office 1

get_effective_le_iff_example :
    (rank (get_effective office 2) ≤ 2)
    ↔ ((rank (get_direct office 2) ≤ 2) × GroupsAtMost office 2 2 office.groups)
get_effective_le_iff_example = get_effective_le_iff office 2 2

abbrev office_read : Directory
office_read = record office {
  user_permissions =
      record { user_id = 2; permission_level = read; granted_by = 1; created_at = 5 }
      ∷ record { user_id = 3; permission_level = admin; granted_by = 1; created_at = 0 }
      ∷ [];
}

set_read : set_direct office 2 read 1 5 ≡ some office_read
unfolding set_direct
set_read = refl

-- A granting user that does not exist fails the foreign key.
unknown_granter : set_direct office 2 read 9 5 ≡ none
unfolding set_direct
unknown_granter = refl

set_direct-Sets_example : Sets office 2 read 1 (set_direct office 2 read 1 5)
set_direct-Sets_example = set_direct-Sets office 2 read 1 5

count_admins_lem_example :
    count_admins office ≡ length (keep (λ u. is_live u && is_admin office u.id) office.users)
count_admins_lem_example = count_admins_lem office (refl, (refl, (refl, tt))) (refl, (refl, tt))
