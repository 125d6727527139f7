-- ===== src/Groups/Pairs.antt =====
-- The members of a group by the rows of group_members, internal/services/group.go.
use indelible.Common.{
  ℕ, suc, ◌≡◌, refl, ap, ◌∙◌, Bool, false, List, [], ◌∷◌, none, some, arith, ◌==◌, if◌then◌else◌,
  elem, any, keep, length, Bool-cases, inl, inr,
}
use indelible.Common.Sql.{delete, affected}
use indelible.Common.Joins.{any-map, any-keep}
use indelible.Token.{is_null}
use indelible.Permission.{GroupMember}
use indelible.Groups.{GroupError, is_pair}
use indelible.Groups.Members.{of_group}

pub elem-of_group :
    (g u : ℕ) (ms : List GroupMember) → elem u (of_group g ms) ≡ any (is_pair g u) ms
elem-of_group g u ms =
    any-map (λ x. x == u) (λ gm. gm.user_id) (keep (λ gm. gm.group_id == g) ms)
    ∙ any-keep (λ gm. gm.user_id == u) (λ gm. gm.group_id == g) ms

pub of_group-delete_pair :
    (g u : ℕ) (ms : List GroupMember)
    → of_group g (delete (is_pair g u) ms) ≡ delete (λ x. x == u) (of_group g ms)
of_group-delete_pair g u [] = refl
of_group-delete_pair g u (m ∷ ms) =
    let i = of_group-delete_pair g u ms in
    elim (Bool-cases (m.group_id == g)) [
      | inr x ↦ rw (x, x) i
      | inl x ↦ elim (Bool-cases (m.user_id == u)) [
        | inl y ↦ rw (x, y) i
        | inr y ↦ rw (x, y, x) (ap (λ l. m.user_id ∷ l) i)
      ]
    ]

pub of_group-delete_pair_other :
    (g u h : ℕ) (ms : List GroupMember)
    → (g == h) ≡ false
    → of_group h (delete (is_pair g u) ms) ≡ of_group h ms
of_group-delete_pair_other g u h [] d = refl
of_group-delete_pair_other g u h (m ∷ ms) d =
    let i = of_group-delete_pair_other g u h ms d in
    elim (Bool-cases (is_pair g u m)) [
      | inl x ↦ let y : (m.group_id == h) ≡ false = ground arith in rw (x, y) i
      | inr x ↦ elim (Bool-cases (m.group_id == h)) [
        | inl y ↦ rw (x, y) (ap (λ l. m.user_id ∷ l) i)
        | inr y ↦ rw (x, y) i
      ]
    ]

pub affected-any :
    (p : GroupMember → Bool) (ms : List GroupMember)
    → is_null (if affected p ms == 0 then some GroupError.not_member else none) ≡ any p ms
affected-any p [] = refl
affected-any p (m ∷ ms) = elim (Bool-cases (p m)) [
  | inl x ↦ let n : (suc (length (keep p ms)) == 0) ≡ false = ground arith in rw x (rw n refl)
  | inr x ↦ rw x (affected-any p ms)
]
