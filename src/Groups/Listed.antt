-- ===== src/Groups/Listed.antt =====
-- The calls of internal/services/group.go on what ListMembers lists, in whatever order.
use indelible.Common.{
  ℕ, ◌≡◌, refl, sym, ap, ◌∙◌, Bool, true, false, not, ◌&&◌, ◌||◌, List, [], ◌∷◌, ◌++◌, arith, ◌==◌,
  elem, Bool-cases, In, KeepsRows, inl, inr,
}
use indelible.Common.Sql.{delete}
use indelible.Permission.{Directory}
use indelible.Groups.{list_members}
use indelible.Groups.Members.{roster}
use indelible.Groups.Roster.{
  Call, deletes, adds, removes, replaces, is_apart, step, Shifts, apart, emptied, joined,
  not_joined, parted, changed, not_changed, step-Shifts,
}

-- Who is a member of which group.
abbrev pub Membership : Type 0
Membership = ℕ → ℕ → Bool

-- Who is listed as a member of which group.
abbrev pub listed : (List ℕ → List ℕ) → Directory → Membership
listed arrange db g u = elem u (list_members arrange db g)

-- All groups but one are as they were.
abbrev pub OthersStay : ℕ → Membership → Membership → Type 0
OthersStay group_id m m' = (g u : ℕ) → (group_id == g) ≡ false → m' g u ≡ m g u

-- What a call does to the members, by its success. A deletion takes them also where it fails.
pub data Moves (m m' : Membership) : Call → Bool → Type 0 where
  stays : (c : Call) (b : Bool) → is_apart c ≡ true → ((g u : ℕ) → m' g u ≡ m g u) → Moves m m' c b
  leaves_none :
      (group_id : ℕ) (referenced b : Bool)
      → ((u : ℕ) → m' group_id u ≡ false)
      → OthersStay group_id m m'
      → Moves m m' (deletes group_id referenced) b
  joins :
      (group_id user_id added_by : ℕ)
      → m group_id user_id ≡ false
      → ((u : ℕ) → m' group_id u ≡ (m group_id u || user_id == u))
      → OthersStay group_id m m'
      → Moves m m' (adds group_id user_id added_by) true
  joins_not :
      (group_id user_id added_by : ℕ)
      → ((g u : ℕ) → m' g u ≡ m g u)
      → Moves m m' (adds group_id user_id added_by) false
  parts :
      (group_id user_id : ℕ) (b : Bool)
      → b ≡ m group_id user_id
      → ((u : ℕ) → m' group_id u ≡ (m group_id u && not (user_id == u)))
      → OthersStay group_id m m'
      → Moves m m' (removes group_id user_id) b
  changes :
      (group_id : ℕ) (user_ids : List ℕ) (added_by : ℕ)
      → ((u : ℕ) → m' group_id u ≡ elem u user_ids)
      → OthersStay group_id m m'
      → Moves m m' (replaces group_id user_ids added_by) true
  changes_not :
      (group_id : ℕ) (user_ids : List ℕ) (added_by : ℕ)
      → ((g u : ℕ) → m' g u ≡ m g u)
      → Moves m m' (replaces group_id user_ids added_by) false

elem-append_one : (u v : ℕ) (xs : List ℕ) → elem v (xs ++ u ∷ []) ≡ (elem v xs || u == v)
elem-append_one u v [] = ground arith
elem-append_one u v (x ∷ xs) = ground (arith, elem-append_one u v xs)

elem-delete :
    (u v : ℕ) (xs : List ℕ) → elem v (delete (λ x. x == u) xs) ≡ (elem v xs && not (u == v))
elem-delete u v [] = refl
elem-delete u v (x ∷ xs) = ground (arith, elem-delete u v xs)

elem-In : (u : ℕ) (xs : List ℕ) → elem u xs ≡ true → In u xs
elem-In u [] h = absurd (cc)
elem-In u (x ∷ xs) h = elim (Bool-cases (x == u)) [
  | inl e ↦ inl (ground arith)
  | inr e ↦ inr (elem-In u xs (rw (← h) (rw e refl)))
]

In-elem : (u : ℕ) (xs : List ℕ) → In u xs → elem u xs ≡ true
In-elem u [] i = absurd i
In-elem u (x ∷ xs) (inl e) = let y : (x == u) ≡ true = ground arith in rw y refl
In-elem u (x ∷ xs) (inr i) = rw (In-elem u xs i) (ground arith)

module _ (arrange : List ℕ → List ℕ) (keeps : KeepsRows arrange) where
  elem-arrange : (u : ℕ) (xs : List ℕ) → elem u (arrange xs) ≡ elem u xs
  elem-arrange u xs = elim (Bool-cases (elem u xs)) [
    | inl e ↦ In-elem u (arrange xs) ((keeps u xs).1 (elem-In u xs e)) ∙ sym e
    | inr e ↦ elim (Bool-cases (elem u (arrange xs))) [
      | inl f ↦
          let y : elem u xs ≡ true = In-elem u xs ((keeps u xs).0 (elem-In u (arrange xs) f)) in
          absurd (cc)
      | inr f ↦ f ∙ sym e
    ]
  ]

  listed-roster : (db : Directory) (g u : ℕ) → listed arrange db g u ≡ elem u (roster db g)
  unfolding list_members
  listed-roster db g u = elem-arrange u (roster db g)

  follow :
      (db db' : Directory) (g u : ℕ)
      → roster db' g ≡ roster db g
      → listed arrange db' g u ≡ listed arrange db g u
  follow db db' g u e = listed-roster db' g u ∙ ap (elem u) e ∙ sym (listed-roster db g u)

  Shifts-Moves :
      (db db' : Directory) (c : Call) (b : Bool)
      → Shifts (roster db) (roster db') c b
      → Moves (listed arrange db) (listed arrange db') c b
  Shifts-Moves db db' _ _ (apart c b a h) = stays c b a (λ g u. follow db db' g u (h g))
  Shifts-Moves db db' _ _ (emptied g r b h o) =
      leaves_none g r b (λ u. listed-roster db' g u ∙ ap (elem u) h)
        (λ k u d. follow db db' k u (o k d))
  Shifts-Moves db db' _ _ (joined g v a n h o) =
      joins g v a (listed-roster db g v ∙ n)
        (λ u.
          listed-roster db' g u
          ∙ ap (elem u) h
          ∙ elem-append_one v u (roster db g)
          ∙ ap (λ x. x || v == u) (sym (listed-roster db g u)))
        (λ k u d. follow db db' k u (o k d))
  Shifts-Moves db db' _ _ (not_joined g v a h) = joins_not g v a (λ k u. follow db db' k u (h k))
  Shifts-Moves db db' _ _ (parted g v b n h o) =
      parts g v b (n ∙ sym (listed-roster db g v))
        (λ u.
          listed-roster db' g u
          ∙ ap (elem u) h
          ∙ elem-delete v u (roster db g)
          ∙ ap (λ x. x && not (v == u)) (sym (listed-roster db g u)))
        (λ k u d. follow db db' k u (o k d))
  Shifts-Moves db db' _ _ (changed g us a h o) =
      changes g us a (λ u. listed-roster db' g u ∙ ap (elem u) h)
        (λ k u d. follow db db' k u (o k d))
  Shifts-Moves db db' _ _ (not_changed g us a h) =
      changes_not g us a (λ k u. follow db db' k u (h k))

  -- Every call of the service moves the members that ListMembers lists, in whatever order the rows come,
  -- as `Moves` says, by its success: an addition succeeds only for a user who is no member, and adds
  -- just that one; a removal succeeds just where the user is a member, and takes just that one; a
  -- replacement leaves just the users given; a deletion leaves no member; where an addition or a
  -- replacement fails the members stay; and no call touches another group's.
  pub step-Moves :
      (db : Directory) (c : Call)
      → Moves (listed arrange db) (listed arrange (step db c).0) c (step db c).1
  step-Moves db c = Shifts-Moves db (step db c).0 c (step db c).1 (step-Shifts db c)
