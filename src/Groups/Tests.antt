-- ===== src/Groups/Tests.antt =====
-- Group 3 with users 1 and 2, and group 4 with user 1.
use indelible.Common.{
  ℕ, ◌≡◌, refl, true, List, [], ◌∷◌, ◌++◌, none, some, err, text, bytes_eq, In, KeepsRows, inl, inr,
}
use indelible.Permission.{Directory, read, unset}
use indelible.Groups.{
  constraint_error, create_group, new_group, new_member, replace_members, insert_members,
  references, commit, list_members, nullable_added_by,
}
use indelible.Groups.Roster.{removes, step}
use indelible.Groups.Listed.{listed, Moves, step-Moves}

abbrev team : Directory
team = record {
  users =
      record { id = 1; is_active = true; deleted_at = none }
      ∷ record { id = 2; is_active = true; deleted_at = none }
      ∷ [];
  user_permissions = [];
  groups = new_group 3 (text "a") [] read 0 ∷ new_group 4 (text "b") [] read 0 ∷ [];
  group_members = new_member 3 1 none ∷ new_member 4 1 none ∷ new_member 3 2 none ∷ [];
  group_seq = 4;
}

-- The order from the last row to the first.
abbrev back_to_front : List ℕ → List ℕ
back_to_front [] = []
back_to_front (x ∷ xs) = back_to_front xs ++ x ∷ []

In-append : (a x : ℕ) (xs : List ℕ) → In a (xs ++ x ∷ []) → In a (x ∷ xs)
In-append a x [] i = i
In-append a x (y ∷ xs) (inl e) = inr (inl e)
In-append a x (y ∷ xs) (inr i) = elim (In-append a x xs i) [ inl e ↦ inl e | inr j ↦ inr (inr j) ]

append-In : (a x : ℕ) (xs : List ℕ) → In a (x ∷ xs) → In a (xs ++ x ∷ [])
append-In a x [] i = i
append-In a x (y ∷ xs) (inl e) = inr (append-In a x xs (inl e))
append-In a x (y ∷ xs) (inr (inl e)) = inl e
append-In a x (y ∷ xs) (inr (inr i)) = inr (append-In a x xs (inr i))

back_to_front-KeepsRows : KeepsRows back_to_front
back_to_front-KeepsRows a [] = (λ i. i, λ i. i)
back_to_front-KeepsRows a (x ∷ xs) =
    let k = back_to_front-KeepsRows a xs in
    (
      λ i. elim (In-append a x (back_to_front xs) i) [ inl e ↦ inl e | inr j ↦ inr (k.0 j) ],
      λ i. append-In a x (back_to_front xs) (elim i [ inl e ↦ inl e | inr j ↦ inr (k.1 j) ]),
    )

members : list_members back_to_front (replace_members team 3 (2 ∷ []) 1).0 3 ≡ 2 ∷ []
unfolding list_members replace_members insert_members references commit nullable_added_by
members = refl

-- A user that is named twice fails the replacement.
twice : (replace_members team 3 (2 ∷ 2 ∷ []) 1).1 ≡ some constraint_error
unfolding replace_members insert_members references commit nullable_added_by
twice = refl

-- The CHECK refuses a group without a level.
no_level : (create_group team (text "x") [] unset 0).1 ≡ err constraint_error
unfolding create_group bytes_eq
no_level = refl

step-Moves_example :
    Moves
      (listed back_to_front team)
      (listed back_to_front (step team (removes 3 1)).0)
      (removes 3 1)
      (step team (removes 3 1)).1
step-Moves_example = step-Moves back_to_front back_to_front-KeepsRows team (removes 3 1)
