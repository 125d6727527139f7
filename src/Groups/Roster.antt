-- ===== src/Groups/Roster.antt =====
-- The calls of internal/services/group.go on the rows of each group, in the order of the table.
use indelible.Common.{
  ℕ, ◌≡◌, refl, sym, ap, ◌∙◌, Bool, true, false, not, ◌&&◌, List, [], ◌∷◌, ◌++◌, Option, arith,
  ◌==◌, elem, any, Bool-cases, Bytes, bytes_eq, Result, ok, err, inl, inr,
}
use indelible.Common.Sql.{delete}
use indelible.Token.{is_null}
use indelible.Permission.{Level, Directory}
use indelible.Groups.{
  GroupError, is_pair, new_member, references, nullable_added_by, get_group, merged, name_taken,
  is_unset, create_group, update_group, delete_group, add_member, remove_member, set_external_id,
  replace_members, has_external_id,
}
use indelible.DownloadCache.Closure.{Result-cases}
use indelible.Groups.Members.{
  Replaces, roster, replaced, rolled_back, replace_members-Replaces, of_group, of_group-append,
  append_nil, of_group-delete, of_group-delete_other,
}
use indelible.Groups.Pairs.{
  elem-of_group, of_group-delete_pair, of_group-delete_pair_other, affected-any,
}

pub data Call : Type 0 where
  creates : Bytes → Bytes → Level → ℕ → Call
  updates : ℕ → Bytes → Bytes → Level → Option Bool → ℕ → Call
  sets_external_id : ℕ → Bytes → ℕ → Call
  deletes : ℕ → Bool → Call
  adds : ℕ → ℕ → ℕ → Call
  removes : ℕ → ℕ → Call
  replaces : ℕ → List ℕ → ℕ → Call

abbrev pub is_ok {ℓ} : {A : Type ℓ} → Result GroupError A → Bool
is_ok (ok a) = true
is_ok (err x) = false

-- A call, with whether it succeeded.
unfoldable pub step : Directory → Call → Directory × Bool
step db (creates name description level now) =
    let r = create_group db name description level now in (r.0, is_ok r.1)
step db (updates id name description level is_active now) =
    let r = update_group db id name description level is_active now in (r.0, is_null r.1)
step db (sets_external_id id x now) = let r = set_external_id db id x now in (r.0, is_null r.1)
step db (deletes id referenced) = let r = delete_group db id referenced in (r.0, is_null r.1)
step db (adds group_id user_id added_by) =
    let r = add_member db group_id user_id added_by in (r.0, is_null r.1)
step db (removes group_id user_id) = let r = remove_member db group_id user_id in (r.0, is_null r.1)
step db (replaces group_id user_ids added_by) =
    let r = replace_members db group_id user_ids added_by in (r.0, is_null r.1)

abbrev pub Roster : Type 0
Roster = ℕ → List ℕ

-- The call is not about members.
abbrev pub is_apart : Call → Bool
is_apart (creates name description level now) = true
is_apart (updates id name description level is_active now) = true
is_apart (sets_external_id id x now) = true
is_apart c = false

-- All groups but one are as they were.
abbrev pub Others : ℕ → Roster → Roster → Type 0
Others group_id m m' = (g : ℕ) → (group_id == g) ≡ false → m' g ≡ m g

-- What a call does to the rows, by its success. A deletion takes the members also where it fails.
pub data Shifts (m m' : Roster) : Call → Bool → Type 0 where
  apart : (c : Call) (b : Bool) → is_apart c ≡ true → ((g : ℕ) → m' g ≡ m g) → Shifts m m' c b
  emptied :
      (group_id : ℕ) (referenced b : Bool)
      → m' group_id ≡ []
      → Others group_id m m'
      → Shifts m m' (deletes group_id referenced) b
  joined :
      (group_id user_id added_by : ℕ)
      → elem user_id (m group_id) ≡ false
      → m' group_id ≡ m group_id ++ user_id ∷ []
      → Others group_id m m'
      → Shifts m m' (adds group_id user_id added_by) true
  not_joined :
      (group_id user_id added_by : ℕ)
      → ((g : ℕ) → m' g ≡ m g)
      → Shifts m m' (adds group_id user_id added_by) false
  parted :
      (group_id user_id : ℕ) (b : Bool)
      → b ≡ elem user_id (m group_id)
      → m' group_id ≡ delete (λ u. u == user_id) (m group_id)
      → Others group_id m m'
      → Shifts m m' (removes group_id user_id) b
  changed :
      (group_id : ℕ) (user_ids : List ℕ) (added_by : ℕ)
      → m' group_id ≡ user_ids
      → Others group_id m m'
      → Shifts m m' (replaces group_id user_ids added_by) true
  not_changed :
      (group_id : ℕ) (user_ids : List ℕ) (added_by : ℕ)
      → ((g : ℕ) → m' g ≡ m g)
      → Shifts m m' (replaces group_id user_ids added_by) false

-- The calls that are not about members leave them.
create-members :
    (db : Directory) (name description : Bytes) (level : Level) (now : ℕ)
    → (create_group db name description level now).0.group_members ≡ db.group_members
unfolding create_group
create-members db name description level now =
    elim (Bool-cases (any (λ g. bytes_eq g.name name) db.groups)) [
      | inl x ↦ rw x refl
      | inr x ↦ elim (Bool-cases (is_unset level)) [
        | inl y ↦ rw (x, y) refl
        | inr y ↦ rw (x, y) refl
      ]
    ]

update-members :
    (db : Directory) (id : ℕ) (name description : Bytes) (level : Level) (is_active : Option Bool)
    (now : ℕ)
    → (update_group db id name description level is_active now).0.group_members ≡ db.group_members
unfolding update_group
update-members db id name description level is_active now = elim (Result-cases (get_group db id)) [
  | inr (x, e) ↦ rw (e, update_group) refl
  | inl (g, e) ↦
      elim (Bool-cases (name_taken db id (merged g name description level is_active now).name)) [
        | inl x ↦ rw (e, x, update_group) refl
        | inr x ↦ rw (e, x, update_group) refl
      ]
]

set_external_id-members :
    (db : Directory) (id : ℕ) (x : Bytes) (now : ℕ)
    → (set_external_id db id x now).0.group_members ≡ db.group_members
unfolding set_external_id
set_external_id-members db id x now =
    elim (Bool-cases (
      any (λ g. not (g.id == id) && has_external_id x g) db.groups
      && any (λ g. g.id == id) db.groups)) [ inl y ↦ rw y refl | inr y ↦ rw y refl ]

delete_group-members :
    (db : Directory) (id : ℕ) (referenced : Bool)
    → (delete_group db id referenced).0.group_members
      ≡ delete (λ gm. gm.group_id == id) db.group_members
unfolding delete_group
delete_group-members db id referenced =
    elim (Bool-cases (referenced && any (λ g. g.id == id) db.groups)) [
      | inl y ↦ rw y refl
      | inr y ↦ rw y refl
    ]

add-Shifts :
    (db : Directory) (group_id user_id added_by : ℕ)
    → Shifts
        (roster db)
        (roster (add_member db group_id user_id added_by).0)
        (adds group_id user_id added_by)
        (is_null (add_member db group_id user_id added_by).1)
unfolding add_member
add-Shifts db group_id user_id added_by =
    let new = new_member group_id user_id (nullable_added_by added_by) in
    elim (Bool-cases (any (is_pair group_id user_id) db.group_members)) [
      | inl x ↦ rw x (not_joined group_id user_id added_by (λ g. refl))
      | inr x ↦ elim (Bool-cases (references db group_id user_id (nullable_added_by added_by))) [
        | inr y ↦ rw (x, y) (not_joined group_id user_id added_by (λ g. refl))
        | inl y ↦
            rw (x, y)
              (joined group_id user_id added_by
                (elem-of_group group_id user_id db.group_members ∙ x)
                (of_group-append group_id db.group_members (new ∷ [])
                  ∙ (let s : (group_id == group_id) ≡ true = ground arith in rw s refl))
                (λ g d.
                  of_group-append g db.group_members (new ∷ [])
                  ∙ (rw d (append_nil (of_group g db.group_members)))))
      ]
    ]

replace-Shifts :
    (db : Directory) (group_id : ℕ) (user_ids : List ℕ) (added_by : ℕ) (db' : Directory)
    (o : Option GroupError)
    → Replaces db db' group_id user_ids o
    → Shifts (roster db) (roster db') (replaces group_id user_ids added_by) (is_null o)
replace-Shifts db group_id user_ids added_by db' _ (replaced e f) =
    changed group_id user_ids added_by e f
replace-Shifts db group_id user_ids added_by db' _ (rolled_back x e) =
    not_changed group_id user_ids added_by (λ g. ap (λ d. roster d g) e)

-- Every call of the service moves the rows of each group so.
pub step-Shifts :
    (db : Directory) (c : Call) → Shifts (roster db) (roster (step db c).0) c (step db c).1
unfolding step
step-Shifts db (creates name description level now) =
    apart (creates name description level now) (step db (creates name description level now)).1 refl
      (λ g. ap (of_group g) (create-members db name description level now))
step-Shifts db (updates id name description level is_active now) =
    apart (updates id name description level is_active now)
      (step db (updates id name description level is_active now)).1 refl
      (λ g. ap (of_group g) (update-members db id name description level is_active now))
step-Shifts db (sets_external_id id x now) =
    apart (sets_external_id id x now) (step db (sets_external_id id x now)).1 refl
      (λ g. ap (of_group g) (set_external_id-members db id x now))
step-Shifts db (deletes id referenced) =
    emptied id referenced (step db (deletes id referenced)).1
      (ap (of_group id) (delete_group-members db id referenced)
        ∙ of_group-delete id db.group_members)
      (λ g d.
        ap (of_group g) (delete_group-members db id referenced)
        ∙ of_group-delete_other id g db.group_members d)
step-Shifts db (adds group_id user_id added_by) = add-Shifts db group_id user_id added_by
step-Shifts db (removes group_id user_id) =
    unfold remove_member in
    parted group_id user_id (step db (removes group_id user_id)).1
      (affected-any (is_pair group_id user_id) db.group_members
        ∙ sym (elem-of_group group_id user_id db.group_members))
      (of_group-delete_pair group_id user_id db.group_members)
      (λ g d. of_group-delete_pair_other group_id user_id g db.group_members d)
step-Shifts db (replaces group_id user_ids added_by) =
    replace-Shifts db group_id user_ids added_by (replace_members db group_id user_ids added_by).0
      (replace_members db group_id user_ids added_by).1
      (replace_members-Replaces db group_id user_ids added_by)
