-- ===== src/Collection/Tree.antt =====
-- The collections under some others, for deleteCollectionRecursive of internal/services/collection.go.
use indelible.Common.{
  ℕ, ◌≡◌, ◌<◌, ◌≤◌, refl, sym, ap, ◌∙◌, Bool, true, false, not, ◌&&◌, ◌||◌, List, [], ◌∷◌, Option,
  some, ◌==◌, if◌then◌else◌, any, keep, elem, All, arith, Bool-cases, inl, inr,
}
use indelible.Common.Sql.{delete}
use indelible.Common.Joins.{any-map, any-keep}
use indelible.Collection.{Collection, Store, has_parent, child_ids}

abbrev pub is_child : ℕ → ℕ → Collection → Bool
is_child q i c = has_parent q c && c.id == i

-- The roots, and the children of what is under them.
pub data Under (rows : List Collection) (roots : List ℕ) : ℕ → Type 0 where
  itself : (i : ℕ) → elem i roots ≡ true → Under rows roots i
  below : (q i : ℕ) → any (is_child q i) rows ≡ true → Under rows roots q → Under rows roots i

-- With a collection goes every child of it.
abbrev pub Closed : (ℕ → Bool) → List Collection → Type 0
Closed gone rows =
    All (λ c. (q : ℕ) → has_parent q c ≡ true → gone q ≡ true → gone c.id ≡ true) rows

-- The store without some collections and without what was in them.
abbrev pub erase : (ℕ → Bool) → Store → Store
erase gone s = record s {
  collections = delete (λ c. gone c.id) s.collections;
  collection_files = delete (λ f. gone f.collection_id) s.collection_files;
}

-- A deletion ends, and takes exactly what is under the roots, with the files in it.
pub record Deletes (o : Option Store) (s : Store) (roots : List ℕ) : Type 0 where
  pub gone : ℕ → Bool
  pub left : o ≡ some (erase gone s)
  pub roots_gone : All (λ i. gone i ≡ true) roots
  pub closed : Closed gone s.collections
  pub only : (i : ℕ) → gone i ≡ true → Under s.collections roots i

-- Ids grow from a parent to its children, up to the last one given out.
abbrev pub Ordered : Store → Type 0
Ordered s =
    All (λ c. (c.id ≤ s.collection_seq) × ((q : ℕ) → has_parent q c ≡ true → q < c.id))
      s.collections

module _ {ℓ} {A : Type ℓ} where
  pub delete-false : (xs : List A) → delete (λ _. false) xs ≡ xs
  delete-false [] = refl
  delete-false (x ∷ xs) = ap (λ l. x ∷ l) (delete-false xs)

  pub delete-delete :
      (p q : A → Bool) (xs : List A) → delete q (delete p xs) ≡ delete (λ x. p x || q x) xs
  delete-delete p q [] = refl
  delete-delete p q (x ∷ xs) =
      let i = delete-delete p q xs in
      elim (Bool-cases (p x)) [
        | inl h ↦ rw h i
        | inr h ↦ elim (Bool-cases (q x)) [
          | inl k ↦ rw (h, k) i
          | inr k ↦ rw (h, k) (ap (λ l. x ∷ l) i)
        ]
      ]

  pub any-delete : (p d : A → Bool) (xs : List A) → any p (delete d xs) ≡ true → any p xs ≡ true
  any-delete p d [] h = h
  any-delete p d (x ∷ xs) h = let i = any-delete p d xs in ground arith

  pub All-delete {κ} :
      (P : A → Type κ) (d : A → Bool) (xs : List A) → All P xs → All P (delete d xs)
  All-delete P d [] a = tt
  All-delete P d (x ∷ xs) a = elim (Bool-cases (d x)) [
    | inl h ↦ rw h (All-delete P d xs a.1)
    | inr h ↦ rw h (a.0, All-delete P d xs a.1)
  ]

module _ {ℓ κ} {A : Type ℓ} (P : A → Type κ) (x : A) (xs : List A) where
  All-tail : (b : Bool) → All P (if not b then x ∷ xs else xs) → All P xs
  All-tail true a = a
  All-tail false a = a.1

  All-head : (b : Bool) → b ≡ false → All P (if not b then x ∷ xs else xs) → P x
  All-head true h a = absurd (cc)
  All-head false h a = a.0

pub Under-mono :
    (rows rows' : List Collection) (roots roots' : List ℕ) (i : ℕ)
    → ((x : ℕ) → elem x roots ≡ true → Under rows' roots' x)
    → ((q x : ℕ) → any (is_child q x) rows ≡ true → any (is_child q x) rows' ≡ true)
    → Under rows roots i
    → Under rows' roots' i
Under-mono rows rows' roots roots' i f g (itself _ e) = f i e
Under-mono rows rows' roots roots' i f g (below q _ e u) =
    below q i (g q i e) (Under-mono rows rows' roots roots' q f g u)

-- Two deletions, one after the other.
pub Closed-both :
    (p q : ℕ → Bool) (rows : List Collection)
    → Closed p rows
    → Closed q (delete (λ c. p c.id) rows)
    → Closed (λ x. p x || q x) rows
Closed-both p q [] a b = tt
Closed-both p q (c ∷ cs) a b =
    let P : Collection → Type 0 =
      λ r. (x : ℕ) → has_parent x r ≡ true → q x ≡ true → q r.id ≡ true in
    let rest = delete (λ r. p r.id) cs in
    (
      joined c a.0 (λ h. All-head P c rest (p c.id) h b),
      Closed-both p q cs a.1 (All-tail P c rest (p c.id) b),
    )
  where
    joined :
        (c : Collection)
        → ((x : ℕ) → has_parent x c ≡ true → p x ≡ true → p c.id ≡ true)
        → (p c.id ≡ false → (x : ℕ) → has_parent x c ≡ true → q x ≡ true → q c.id ≡ true)
        → (x : ℕ) → has_parent x c ≡ true
        → (p x || q x) ≡ true
        → (p c.id || q c.id) ≡ true
    joined c f g x e h = elim (Bool-cases (p c.id)) [
      | inl k ↦ rw k refl
      | inr k ↦ elim (Bool-cases (p x)) [
        | inl y ↦ let z = f x e y in absurd (cc)
        | inr y ↦ let w : q x ≡ true = sym (ap (λ b. b || q x) y) ∙ h in rw k (g k x e w)
      ]
    ]

pub child_ids-child :
    (s : Store) (id i : ℕ)
    → elem i (child_ids s id) ≡ true
    → any (is_child id i) s.collections ≡ true
unfolding child_ids
child_ids-child s id i h =
    let m = any-map (λ x. x == i) (λ c. c.id) (keep (has_parent id) s.collections) in
    let k = any-keep (λ c. c.id == i) (has_parent id) s.collections in sym (m ∙ k) ∙ h
