-- ===== src/Permission/Effective.antt =====
-- What the effective level of a user is made of.
use indelible.Common.{
  ℕ, ◌⊎◌, Option, ◌≤◌, ◌≡◌, refl, ap, ◌∙◌, ◌↔◌, inl, inr, Bool-cases, Bool, true, false, not, none,
  ◌&&◌, ◌||◌, List, [], ◌∷◌, ◌++◌, map, some, arith, ◌==◌, if◌then◌else◌, keep, find, any, All,
  any-append,
}
use indelible.Common.Sql.{update}
use indelible.Permission.{
  Level, unset, read, write, admin, PermissionRow, Group, GroupMember, Directory, rank,
  is_admin_level, highest, set_direct, get_direct, level_of, group_levels, top_level, get_effective,
  is_admin,
}

pub highest-admin :
    (a b : Level) → is_admin_level (highest a b) ≡ (is_admin_level a || is_admin_level b)
unfolding highest is_admin_level
highest-admin unset b = ground arith
highest-admin read b = ground arith
highest-admin write b = ground arith
highest-admin admin b = ground arith

rank-highest_left : (a b : Level) → rank a ≤ rank (highest a b)
unfolding highest
rank-highest_left a b = ground arith

rank-highest_right : (a b : Level) → rank b ≤ rank (highest a b)
unfolding highest
rank-highest_right a b = ground arith

-- Whether a user belongs to a group.
abbrev pub is_member : Directory → ℕ → Group → Bool
is_member db user_id g = any (λ gm. gm.group_id == g.id && gm.user_id == user_id) db.group_members

any-map_const :
    (p : Level → Bool) (l : Level) (q : GroupMember → Bool) (ms : List GroupMember)
    → any p (map (λ _. l) (keep q ms)) ≡ (p l && any q ms)
any-map_const p l q [] = ground arith
any-map_const p l q (m ∷ ms) = ground (arith, any-map_const p l q ms)

top_level-admin : (ls : List Level) → is_admin_level (top_level ls) ≡ any is_admin_level ls
unfolding top_level
top_level-admin [] = unfold is_admin_level in refl
top_level-admin (l ∷ ls) =
    highest-admin l (top_level ls) ∙ ap (λ b. is_admin_level l || b) (top_level-admin ls)

group_levels-admin :
    (db : Directory) (user_id : ℕ) (gs : List Group)
    → any is_admin_level (group_levels user_id db.group_members gs)
      ≡ any (λ g. g.is_active && is_admin_level g.permission_level && is_member db user_id g) gs
unfolding group_levels
group_levels-admin db user_id [] = refl
group_levels-admin db user_id (g ∷ gs) = ground (
  arith,
  any-append is_admin_level
      (if g.is_active
        then map (λ _. g.permission_level)
            (keep (λ gm. gm.group_id == g.id && gm.user_id == user_id) db.group_members)
        else [])
      (group_levels user_id db.group_members gs),
  any-map_const is_admin_level g.permission_level
      (λ gm. gm.group_id == g.id && gm.user_id == user_id) db.group_members,
  group_levels-admin db user_id gs,
)

-- A user is an administrator exactly when the direct level is admin, or the user belongs to an
-- active group whose level is admin.
pub is_admin_lem :
    (db : Directory) (user_id : ℕ)
    → is_admin db user_id ≡ (
        is_admin_level (get_direct db user_id)
        || any
            (λ g. g.is_active && is_admin_level g.permission_level && is_member db user_id g)
            db.groups)
unfolding is_admin get_effective
is_admin_lem db user_id =
    highest-admin (get_direct db user_id)
      (top_level (group_levels user_id db.group_members db.groups))
    ∙ ap (λ b. is_admin_level (get_direct db user_id) || b)
        (top_level-admin (group_levels user_id db.group_members db.groups)
          ∙ group_levels-admin db user_id db.groups)

-- The levels of the active groups of a user are at most `n`.
abbrev pub GroupsAtMost : Directory → ℕ → ℕ → List Group → Type 0
GroupsAtMost db user_id n =
    All (λ g. g.is_active ≡ true → is_member db user_id g ≡ true → rank g.permission_level ≤ n)

highest_le : (n : ℕ) (a b : Level) → (rank (highest a b) ≤ n) ↔ ((rank a ≤ n) × (rank b ≤ n))
highest_le n a b = (
  λ h. ground (arith, rank-highest_left a b, rank-highest_right a b),
  λ h. unfold highest in ground arith,
)

AllAtMost-append :
    (n : ℕ) (xs ys : List Level)
    → All (λ l. rank l ≤ n) (xs ++ ys) ↔ (All (λ l. rank l ≤ n) xs × All (λ l. rank l ≤ n) ys)
AllAtMost-append n [] ys = (λ h. (tt, h), λ h. h.1)
AllAtMost-append n (x ∷ xs) ys = (
  λ h. let r = (AllAtMost-append n xs ys).0 h.1 in ((h.0, r.0), r.1),
  λ h. (h.0.0, (AllAtMost-append n xs ys).1 (h.0.1, h.1)),
)

top_level_le : (n : ℕ) (ls : List Level) → (rank (top_level ls) ≤ n) ↔ All (λ l. rank l ≤ n) ls
unfolding top_level
top_level_le n [] = (λ h. tt, λ h. unfold rank in omega arith)
top_level_le n (l ∷ ls) = (
  λ h. let r = (highest_le n l (top_level ls)).0 h in (r.0, (top_level_le n ls).0 r.1),
  λ h. (highest_le n l (top_level ls)).1 (h.0, (top_level_le n ls).1 h.1),
)

AllAtMost-const :
    (n : ℕ) (l : Level) (q : GroupMember → Bool) (ms : List GroupMember)
    → All (λ x. rank x ≤ n) (map (λ _. l) (keep q ms)) ↔ (any q ms ≡ true → rank l ≤ n)
AllAtMost-const n l q [] = (λ h e. cc, λ h. tt)
AllAtMost-const n l q (m ∷ ms) = elim (Bool-cases (q m)) [
  | inl e ↦ rw e (λ h _. h.0, λ h. (h refl, (AllAtMost-const n l q ms).1 (λ _. h refl)))
  | inr e ↦ rw e (AllAtMost-const n l q ms)
]

group_levels_le :
    (db : Directory) (user_id n : ℕ) (gs : List Group)
    → All (λ l. rank l ≤ n) (group_levels user_id db.group_members gs)
      ↔ GroupsAtMost db user_id n gs
unfolding group_levels
group_levels_le db user_id n [] = (λ h. tt, λ h. tt)
group_levels_le db user_id n (g ∷ gs) =
    let here =
      AllAtMost-const n g.permission_level (λ gm. gm.group_id == g.id && gm.user_id == user_id)
        db.group_members in
    let rest = group_levels_le db user_id n gs in
    elim (Bool-cases g.is_active) [
      | inl e ↦ rw e (
        λ h. let r = (AllAtMost-append n _ _).0 h in (λ _. here.0 r.0, rest.0 r.1),
        λ h. (AllAtMost-append n _ _).1 (here.1 (h.0 refl), rest.1 h.1),
      )
      | inr e ↦ rw e (λ h. ((λ w. cc), rest.0 h), λ h. rest.1 h.1)
    ]

-- The effective level is the least one that is at least the direct level and the level of every
-- active group that the user belongs to: it is within a bound exactly when all of those are.
pub get_effective_le_iff :
    (db : Directory) (user_id n : ℕ)
    → (rank (get_effective db user_id) ≤ n)
      ↔ ((rank (get_direct db user_id) ≤ n) × GroupsAtMost db user_id n db.groups)
unfolding get_effective
get_effective_le_iff db user_id n =
    let top = top_level_le n (group_levels user_id db.group_members db.groups) in
    let gs = group_levels_le db user_id n db.groups in
    let both =
      highest_le n (get_direct db user_id)
        (top_level (group_levels user_id db.group_members db.groups)) in
    (λ h. ((both.0 h).0, gs.0 (top.0 (both.0 h).1)), λ h. both.1 (h.0, top.1 (gs.1 h.1)))

find-update :
    (u v : ℕ) (l : Level) (granted_by now : ℕ) (rs : List PermissionRow)
    → level_of (
        find
          (λ r. r.user_id == v)
          (update
            (λ r. r.user_id == u)
            (λ r. record r { permission_level = l; granted_by = granted_by; created_at = now })
            rs))
      ≡ (if u == v && any (λ r. r.user_id == u) rs
          then l
          else level_of (find (λ r. r.user_id == v) rs))
unfolding update
find-update u v l granted_by now [] = ground arith
find-update u v l granted_by now (r ∷ rs) = elim (Bool-cases (r.user_id == u)) [
  | inl e ↦ rw e (ground (arith, find-update u v l granted_by now rs))
  | inr e ↦ rw e (ground (arith, find-update u v l granted_by now rs))
]

find-insert :
    (v : ℕ) (r : PermissionRow) (rs : List PermissionRow)
    → any (λ x. x.user_id == r.user_id) rs ≡ false
    → level_of (find (λ x. x.user_id == v) (rs ++ r ∷ []))
      ≡ (if r.user_id == v then r.permission_level else level_of (find (λ x. x.user_id == v) rs))
find-insert v r [] h = ground arith
find-insert v r (x ∷ rs) h = ground (arith, find-insert v r rs)

-- The row that SetDirect inserts where the user has none.
abbrev fresh_row : ℕ → Level → ℕ → ℕ → PermissionRow
fresh_row u l granted_by now = record {
  user_id = u;
  permission_level = l;
  granted_by = granted_by;
  created_at = now;
}

get_direct-upsert :
    (u : ℕ) (l : Level) (granted_by now v : ℕ) (rs : List PermissionRow)
    → level_of (
        find
          (λ r. r.user_id == v)
          (if any (λ r. r.user_id == u) rs
            then update
                (λ r. r.user_id == u)
                (λ r. record r { permission_level = l; granted_by = granted_by; created_at = now })
                rs
            else rs ++ fresh_row u l granted_by now ∷ []))
      ≡ (if u == v then l else level_of (find (λ r. r.user_id == v) rs))
get_direct-upsert u l granted_by now v rs = elim (Bool-cases (any (λ r. r.user_id == u) rs)) [
  | inl e ↦ rw e (ground (arith, find-update u v l granted_by now rs))
  | inr e ↦ rw e (find-insert v (fresh_row u l granted_by now) rs e)
]

-- What a SetDirect comes to: the level is set, or a constraint of the table refuses it.
pub data Sets (db : Directory) (u : ℕ) (l : Level) (granted_by : ℕ)
    : Option Directory → Type 0 where
  set :
      (db' : Directory)
      → 1 ≤ rank l
      → any (λ w. w.id == u) db.users ≡ true
      → any (λ w. w.id == granted_by) db.users ≡ true
      → ((v : ℕ) → get_direct db' v ≡ (if u == v then l else get_direct db v))
      → Sets db u l granted_by (some db')
  refused :
      ((l ≡ unset)
        ⊎ ((any (λ w. w.id == u) db.users ≡ false)
            ⊎ (any (λ w. w.id == granted_by) db.users ≡ false)))
      → Sets db u l granted_by none

abbrev Guarded : Directory → ℕ → Level → ℕ → Directory → Type 0
Guarded db u l granted_by db' = Sets db u l granted_by (
    if not (any (λ w. w.id == u) db.users && any (λ w. w.id == granted_by) db.users)
    then none
    else some db')

Guarded-intro :
    (db : Directory) (u : ℕ) (l : Level) (granted_by : ℕ) (db' : Directory)
    → 1 ≤ rank l
    → ((v : ℕ) → get_direct db' v ≡ (if u == v then l else get_direct db v))
    → Guarded db u l granted_by db'
Guarded-intro db u l granted_by db' r h = elim (Bool-cases (any (λ w. w.id == u) db.users)) [
  | inr a ↦ rw a (refused (inr (inl a)))
  | inl a ↦ elim (Bool-cases (any (λ w. w.id == granted_by) db.users)) [
    | inr b ↦ rw (a, b) (refused (inr (inr b)))
    | inl b ↦ rw (a, b) (set db' r a b h)
  ]
]

-- SetDirect succeeds exactly for a level that is not empty where the user and the granting user exist:
-- the direct level of the user is then the one set, and that of every other user what it was.
pub set_direct-Sets :
    (db : Directory) (u : ℕ) (l : Level) (granted_by now : ℕ)
    → Sets db u l granted_by (set_direct db u l granted_by now)
unfolding get_direct set_direct rank
set_direct-Sets db u unset granted_by now = refused (inl refl)
set_direct-Sets db u read granted_by now =
    Guarded-intro db u read granted_by _ (omega arith)
      (λ v. get_direct-upsert u read granted_by now v db.user_permissions)
set_direct-Sets db u write granted_by now =
    Guarded-intro db u write granted_by _ (omega arith)
      (λ v. get_direct-upsert u write granted_by now v db.user_permissions)
set_direct-Sets db u admin granted_by now =
    Guarded-intro db u admin granted_by _ (omega arith)
      (λ v. get_direct-upsert u admin granted_by now v db.user_permissions)
