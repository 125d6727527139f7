-- ===== src/Permission/Admins.antt =====
-- The administrators that CountAdmins counts.
use indelible.Common.{
  ℕ, ◌+◌, ◌≡◌, refl, sym, ap, ap₂, subst, fun_ext, ◌∙◌, inl, inr, Bool-cases, Bool, true, false,
  ◌&&◌, ◌||◌, List, [], ◌∷◌, ◌++◌, map, Option, some, none, arith, ◌==◌, if◌then◌else◌, keep, find,
  any, elem, length, any-append, Distinct,
}
use indelible.Common.Joins.{
  or_null, flat_map, is_empty, is_empty-keep, any-flat_map, any-map, any-keep, any-or_null,
  any-false, any_swap, is_empty-or_null, is_empty-flat_map, any_ext,
}
use indelible.Permission.{
  PermissionRow, Group, GroupMember, UserRow, Directory, is_admin_level, get_direct, is_admin,
  level_of, joined_groups, admin_permission, admin_group, is_live, passes, admin_rows,
  distinct_count, count_admins,
}
use indelible.Permission.Effective.{is_admin_lem, is_member}

-- Copies of an id that is not counted later add one, if there are any.
distinct_count-copies :
    {A : Type 0} (a : ℕ) (xs : List A) (rest : List ℕ)
    → elem a rest ≡ false
    → distinct_count (map (λ _. a) xs ++ rest)
      ≡ (if is_empty xs then 0 else 1) + distinct_count rest
unfolding distinct_count
distinct_count-copies a [] rest h = omega arith
distinct_count-copies a (x ∷ []) rest h = rw h (omega arith)
distinct_count-copies a (x ∷ y ∷ xs) rest h =
    ground (arith, distinct_count-copies a (y ∷ xs) rest h)

elem-copies :
    {A : Type 0} (a b : ℕ) (xs : List A) → (a == b) ≡ false → elem b (map (λ _. a) xs) ≡ false
elem-copies a b [] h = refl
elem-copies a b (x ∷ xs) h = rw h (elem-copies a b xs h)

module _ {A : Type 0} (rows : UserRow → List A) where
  elem-flat_map :
      (b : ℕ) (us : List UserRow)
      → elem b (map (λ u. u.id) us) ≡ false
      → elem b (flat_map (λ u. map (λ _. u.id) (rows u)) us) ≡ false
  elem-flat_map b [] h = refl
  elem-flat_map b (u ∷ us) h = ground (
    arith,
    any-append (λ x. x == b) (map (λ _. u.id) (rows u))
        (flat_map (λ v. map (λ _. v.id) (rows v)) us),
    elem-copies u.id b (rows u),
    elem-flat_map b us,
  )

  distinct_count-flat_map :
      (us : List UserRow)
      → Distinct (map (λ u. u.id) us)
      → distinct_count (flat_map (λ u. map (λ _. u.id) (rows u)) us)
        ≡ length (keep (λ u. elim (is_empty (rows u)) [ true ↦ false | false ↦ true ]) us)
  distinct_count-flat_map [] d = unfold distinct_count in refl
  distinct_count-flat_map (u ∷ us) d = ground (
    arith,
    distinct_count-copies u.id (rows u) (flat_map (λ v. map (λ _. v.id) (rows v)) us)
        (elem-flat_map u.id us d.0),
    distinct_count-flat_map us d.1,
  )

-- A disjunction over all pairs of rows of two tables, the second not empty.
any-constant :
    {A : Type 0} (a : Bool) (q : A → Bool) (xs : List A)
    → is_empty xs ≡ false
    → any (λ x. a || q x) xs ≡ (a || any q xs)
any-constant true q [] h = cc
any-constant false q [] h = cc
any-constant true q (x ∷ xs) h = refl
any-constant false q (x ∷ xs) h = refl

any-pairs :
    {A : Type 0} (p : A → Bool) (b : Bool) (xs : List A)
    → is_empty xs ≡ false
    → any (λ x. p x || b) xs ≡ (any p xs || b)
any-pairs p b [] h = cc
any-pairs p b (x ∷ []) h = ground arith
any-pairs p b (x ∷ y ∷ xs) h = ground (arith, any-pairs p b (y ∷ xs))

is_empty-joined_groups :
    (groups : List Group) (gm : Option GroupMember) → is_empty (joined_groups groups gm) ≡ false
unfolding joined_groups
is_empty-joined_groups groups none = refl
is_empty-joined_groups groups (some gm) = is_empty-or_null _

no_row :
    (u : ℕ) (rs : List PermissionRow)
    → elem u (map (λ r. r.user_id) rs) ≡ false
    → any (λ r. r.user_id == u && is_admin_level r.permission_level) rs ≡ false
no_row u [] h = refl
no_row u (r ∷ rs) h = ground (arith, no_row u rs)

-- The user holds an administrator row in `user_permissions`.
direct_any :
    (u : ℕ) (rs : List PermissionRow)
    → Distinct (map (λ r. r.user_id) rs)
    → any (λ r. r.user_id == u && is_admin_level r.permission_level) rs
      ≡ is_admin_level (level_of (find (λ r. r.user_id == u) rs))
direct_any u [] d = unfold is_admin_level in refl
direct_any u (r ∷ rs) d = elim (Bool-cases (r.user_id == u)) [
  | inl e ↦
      let id : r.user_id ≡ u = ground arith in
      rw e
        (ground (arith, no_row u rs (subst (λ k. elem k (map (λ x. x.user_id) rs) ≡ false) id d.0)))
  | inr e ↦ rw e (direct_any u rs d.1)
]

any-joined :
    (groups : List Group) (gm : GroupMember)
    → any admin_group (joined_groups groups (some gm))
      ≡ any (λ g. g.id == gm.group_id && g.is_active && is_admin_level g.permission_level) groups
unfolding joined_groups
any-joined groups gm =
    any-or_null admin_group _ refl
    ∙ any-keep (λ g. is_admin_level g.permission_level) (λ g. g.id == gm.group_id && g.is_active)
        groups
    ∙ any_ext (λ g. ground arith) groups

-- The groups of a user's joined rows hold an administrator group exactly when the user is a member
-- of an active one.
group_any :
    (db : Directory) (u : ℕ) (groups : List Group)
    → any admin_group
        (flat_map (joined_groups groups) (or_null (keep (λ gm. gm.user_id == u) db.group_members)))
      ≡ any (λ g. g.is_active && is_admin_level g.permission_level && is_member db u g) groups
group_any db u groups =
    any-flat_map admin_group (joined_groups groups) _
    ∙ any-or_null (λ gm. any admin_group (joined_groups groups gm)) _ (unfold joined_groups in refl)
    ∙ any-keep (λ gm. any admin_group (joined_groups groups (some gm))) (λ gm. gm.user_id == u)
        db.group_members
    ∙ any_ext (λ gm. ap (λ b. gm.user_id == u && b) (any-joined groups gm) ∙ conj gm groups)
        db.group_members
    ∙ any_swap _ db.group_members groups
    ∙ any_ext (λ g. per_group g db.group_members) groups
  where
    conj :
        (gm : GroupMember) (gs : List Group)
        → (gm.user_id == u
            && any
                (λ g. g.id == gm.group_id && g.is_active && is_admin_level g.permission_level)
                gs)
          ≡ any
              (λ g.
                gm.user_id == u
                && g.id == gm.group_id
                && g.is_active
                && is_admin_level g.permission_level)
              gs
    conj gm [] = ground arith
    conj gm (g ∷ gs) = ground (arith, conj gm gs)

    per_group :
        (g : Group) (ms : List GroupMember)
        → any
            (λ gm.
              gm.user_id == u
              && g.id == gm.group_id
              && g.is_active
              && is_admin_level g.permission_level)
            ms
          ≡ (g.is_active
              && is_admin_level g.permission_level
              && any (λ gm. gm.group_id == g.id && gm.user_id == u) ms)
    per_group g [] = ground arith
    per_group g (m ∷ ms) = ground (arith, per_group g ms)

any_rows :
    (live : Bool) (ups : List (Option PermissionRow)) (gs : List (Option Group))
    → is_empty ups ≡ false
    → is_empty gs ≡ false
    → any (passes live) (flat_map (λ up. map (λ g. (up, g)) gs) ups)
      ≡ (live && (any admin_permission ups || any admin_group gs))
any_rows live ups gs hu hg =
    any-flat_map (passes live) _ ups
    ∙ any_ext (λ up. any-map (passes live) (λ g. (up, g)) gs) ups
    ∙ split live
  where
    split :
        (b : Bool)
        → any (λ up. any (λ g. b && (admin_permission up || admin_group g)) gs) ups
          ≡ (b && (any admin_permission ups || any admin_group gs))
    split false = any_ext (λ up. any-false gs) ups ∙ any-false ups
    split true =
        any_ext (λ up. any-constant (admin_permission up) admin_group gs hg) ups
        ∙ any-pairs admin_permission (any admin_group gs) ups hu

abbrev own_permissions : Directory → ℕ → List (Option PermissionRow)
own_permissions db id = or_null (keep (λ r. r.user_id == id) db.user_permissions)

abbrev own_memberships : Directory → ℕ → List (Option GroupMember)
own_memberships db id = or_null (keep (λ gm. gm.user_id == id) db.group_members)

direct_level :
    (db : Directory) (id : ℕ)
    → Distinct (map (λ r. r.user_id) db.user_permissions)
    → any admin_permission (own_permissions db id) ≡ is_admin_level (get_direct db id)
unfolding get_direct
direct_level db id d =
    any-or_null admin_permission _ refl
    ∙ any-keep (λ r. is_admin_level r.permission_level) (λ r. r.user_id == id) db.user_permissions
    ∙ direct_any id db.user_permissions d

-- A user of the directory is joined to a row that passes the WHERE clause exactly when the user
-- is live and an administrator.
counted :
    (db : Directory) (u : UserRow)
    → Distinct (map (λ r. r.user_id) db.user_permissions)
    → (elim (is_empty (admin_rows db u)) [ true ↦ false | false ↦ true ])
      ≡ (is_live u && is_admin db u.id)
unfolding admin_rows
counted db u d =
    is_empty-keep (passes (is_live u)) _
    ∙ any_rows (is_live u) (own_permissions db u.id)
        (flat_map (joined_groups db.groups) (own_memberships db u.id))
        (is_empty-or_null (keep (λ r. r.user_id == u.id) db.user_permissions))
        (is_empty-flat_map (joined_groups db.groups) (own_memberships db u.id)
          (is_empty-joined_groups db.groups)
          (is_empty-or_null (keep (λ gm. gm.user_id == u.id) db.group_members)))
    ∙ ap (λ b. is_live u && b)
        (ap₂ ◌||◌ (direct_level db u.id d) (group_any db u.id db.groups)
          ∙ sym (is_admin_lem db u.id))

-- Where the ids of `users` are distinct and no user has two rows in `user_permissions`, CountAdmins
-- is the number of users that are active, not deleted, and administrators by IsAdmin.
pub count_admins_lem :
    (db : Directory)
    → Distinct (map (λ u. u.id) db.users)
    → Distinct (map (λ r. r.user_id) db.user_permissions)
    → count_admins db ≡ length (keep (λ u. is_live u && is_admin db u.id) db.users)
unfolding count_admins
count_admins_lem db ids perms =
    distinct_count-flat_map (admin_rows db) db.users ids
    ∙ ap (λ p. length (keep p db.users)) (fun_ext (λ u. counted db u perms))
