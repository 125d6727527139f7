-- ===== src/Groups/Members.antt =====
-- ReplaceMembers of internal/services/group.go.
use indelible.Common.{
  ℕ, ◌≡◌, refl, sym, ap, ◌∙◌, true, false, not, ◌||◌, List, [], ◌∷◌, ◌++◌, Option, none, some,
  some-injective, map, arith, ◌==◌, keep, keep-append, any, Bool-cases, Option-cases, inl, inr,
}
use indelible.Common.Sql.{delete}
use indelible.Permission.{GroupMember, Directory}
use indelible.Groups.{
  GroupError, is_pair, new_member, references, insert_members, commit, replace_members,
  nullable_added_by,
}

abbrev pub of_group : ℕ → List GroupMember → List ℕ
of_group g ms = map (λ gm. gm.user_id) (keep (λ gm. gm.group_id == g) ms)

-- The rows of each group.
abbrev pub roster : Directory → ℕ → List ℕ
roster db g = of_group g db.group_members

-- What ReplaceMembers comes to, by its error.
pub data Replaces (db db' : Directory) (group_id : ℕ) (user_ids : List ℕ)
    : Option GroupError → Type 0 where
  replaced :
      roster db' group_id ≡ user_ids
      → ((g : ℕ) → (group_id == g) ≡ false → roster db' g ≡ roster db g)
      → Replaces db db' group_id user_ids none
  rolled_back : (x : GroupError) → db' ≡ db → Replaces db db' group_id user_ids (some x)

map-append :
    (xs ys : List GroupMember)
    → map (λ gm. gm.user_id) (xs ++ ys) ≡ map (λ gm. gm.user_id) xs ++ map (λ gm. gm.user_id) ys
map-append [] ys = refl
map-append (x ∷ xs) ys = ap (λ l. x.user_id ∷ l) (map-append xs ys)

pub of_group-append :
    (g : ℕ) (xs ys : List GroupMember) → of_group g (xs ++ ys) ≡ of_group g xs ++ of_group g ys
of_group-append g xs ys =
    ap (λ l. map (λ gm. gm.user_id) l) (keep-append (λ gm. gm.group_id == g) xs ys)
    ∙ map-append (keep (λ gm. gm.group_id == g) xs) (keep (λ gm. gm.group_id == g) ys)

append_assoc_one : (xs : List ℕ) (y : ℕ) (ys : List ℕ) → (xs ++ y ∷ []) ++ ys ≡ xs ++ y ∷ ys
append_assoc_one [] y ys = refl
append_assoc_one (x ∷ xs) y ys = ap (λ l. x ∷ l) (append_assoc_one xs y ys)

pub append_nil : (xs : List ℕ) → xs ++ [] ≡ xs
append_nil [] = refl
append_nil (x ∷ xs) = ap (λ l. x ∷ l) (append_nil xs)

module _ (db : Directory) (group_id : ℕ) (added : Option ℕ) where
  of_group-insert_members :
      (us : List ℕ) (ms ms' : List GroupMember)
      → insert_members db group_id added ms us ≡ some ms'
      → of_group group_id ms' ≡ of_group group_id ms ++ us
  unfolding insert_members
  of_group-insert_members [] ms ms' h =
      ap (of_group group_id) (sym (some-injective _ _ h)) ∙ sym (append_nil (of_group group_id ms))
  of_group-insert_members (u ∷ us) ms ms' h =
      elim (Bool-cases (any (is_pair group_id u) ms || not (references db group_id u added))) [
        | inl x ↦ let y : none ≡ some ms' = rw (← h) (rw x refl) in absurd (cc)
        | inr x ↦
            let n = ms ++ new_member group_id u added ∷ [] in
            let i = of_group-insert_members us n ms' (rw (← h) (rw x refl)) in
            let s : (group_id == group_id) ≡ true = ground arith in
            let a : of_group group_id n ≡ of_group group_id ms ++ u ∷ [] =
              of_group-append group_id ms (new_member group_id u added ∷ []) ∙ rw s refl in
            i ∙ ap (λ l. l ++ us) a ∙ append_assoc_one (of_group group_id ms) u us
      ]

  of_group-insert_members_other :
      (g : ℕ) (us : List ℕ) (ms ms' : List GroupMember)
      → (group_id == g) ≡ false
      → insert_members db group_id added ms us ≡ some ms'
      → of_group g ms' ≡ of_group g ms
  unfolding insert_members
  of_group-insert_members_other g [] ms ms' d h = ap (of_group g) (sym (some-injective _ _ h))
  of_group-insert_members_other g (u ∷ us) ms ms' d h =
      elim (Bool-cases (any (is_pair group_id u) ms || not (references db group_id u added))) [
        | inl x ↦ let y : none ≡ some ms' = rw (← h) (rw x refl) in absurd (cc)
        | inr x ↦
            let n = ms ++ new_member group_id u added ∷ [] in
            let i = of_group-insert_members_other g us n ms' d (rw (← h) (rw x refl)) in
            i
            ∙ of_group-append g ms (new_member group_id u added ∷ [])
            ∙ (rw d (append_nil (of_group g ms)))
      ]

pub of_group-delete :
    (g : ℕ) (ms : List GroupMember) → of_group g (delete (λ gm. gm.group_id == g) ms) ≡ []
of_group-delete g [] = refl
of_group-delete g (m ∷ ms) = elim (Bool-cases (m.group_id == g)) [
  | inl x ↦ rw x (of_group-delete g ms)
  | inr x ↦ rw (x, x) (of_group-delete g ms)
]

pub of_group-delete_other :
    (g h : ℕ) (ms : List GroupMember)
    → (g == h) ≡ false
    → of_group h (delete (λ gm. gm.group_id == g) ms) ≡ of_group h ms
of_group-delete_other g h [] d = refl
of_group-delete_other g h (m ∷ ms) d =
    let ih = of_group-delete_other g h ms d in
    elim (Bool-cases (m.group_id == g)) [
      | inl x ↦ let y : (m.group_id == h) ≡ false = ground arith in rw (x, y) ih
      | inr x ↦ elim (Bool-cases (m.group_id == h)) [
        | inl y ↦ rw (x, y) (ap (λ l. m.user_id ∷ l) ih)
        | inr y ↦ rw (x, y) ih
      ]
    ]

-- ReplaceMembers either succeeds, and the rows of the group are then those of the users given, and those of every other group what they were, or fails and changes nothing.
pub replace_members-Replaces :
    (db : Directory) (group_id : ℕ) (user_ids : List ℕ) (added_by : ℕ)
    → Replaces db
        (replace_members db group_id user_ids added_by).0
        group_id
        user_ids
        (replace_members db group_id user_ids added_by).1
unfolding replace_members commit
replace_members-Replaces db group_id user_ids added_by =
    let added = nullable_added_by added_by in
    let rest = delete (λ gm. gm.group_id == group_id) db.group_members in
    elim (Option-cases (insert_members db group_id added rest user_ids)) [
      | inl n ↦ rw (n, replace_members, commit) (rolled_back _ refl)
      | inr (ms, n) ↦
          rw (n, replace_members, commit)
            (replaced
              (of_group-insert_members db group_id added user_ids rest ms n
                ∙ ap (λ l. l ++ user_ids) (of_group-delete group_id db.group_members))
              (λ g d.
                of_group-insert_members_other db group_id added g user_ids rest ms d n
                ∙ of_group-delete_other group_id g db.group_members d))
    ]
