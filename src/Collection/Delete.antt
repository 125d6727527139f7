-- ===== src/Collection/Delete.antt =====
-- deleteCollectionRecursive of internal/services/collection.go.
use indelible.Common.{
  ℕ, zero, suc, ◌+◌, ◌≡◌, ◌<◌, ◌≤◌, refl, sym, ap, ap₂, subst, ◌∙◌, Bool, true, false, ◌||◌, List,
  [], ◌∷◌, Option, some, map, ◌==◌, if◌then◌else◌, keep, All, All-mono, arith, ==_iff, Bool-cases,
  inl, inr,
}
use indelible.Collection.{
  Collection, Store, has_parent, child_ids, each, remove_one, delete_recursive, delete_collection,
}
use indelible.Collection.Tree.{
  itself, below, is_child, Closed, Closed-both, erase, Deletes, Ordered, delete-false,
  delete-delete, any-delete, All-delete, Under-mono, child_ids-child,
}

erase-nothing : (s : Store) → erase (λ _. false) s ≡ s
erase-nothing s =
    ap₂ (λ cs fs. record s { collections = cs; collection_files = fs }) (delete-false s.collections)
      (delete-false s.collection_files)

erase-erase : (p q : ℕ → Bool) (s : Store) → erase q (erase p s) ≡ erase (λ x. p x || q x) s
erase-erase p q s =
    ap₂ (λ cs fs. record s { collections = cs; collection_files = fs })
      (delete-delete (λ c. p c.id) (λ c. q c.id) s.collections)
      (delete-delete (λ f. p f.collection_id) (λ f. q f.collection_id) s.collection_files)

pub erase-Ordered : (p : ℕ → Bool) (s : Store) → Ordered s → Ordered (erase p s)
erase-Ordered p s o =
    All-delete (λ c. (c.id ≤ s.collection_seq) × ((q : ℕ) → has_parent q c ≡ true → q < c.id))
      (λ c. p c.id) s.collections o

nothing-Closed : (rows : List Collection) → Closed (λ _. false) rows
nothing-Closed [] = tt
nothing-Closed (c ∷ cs) = ((λ q e g. g), nothing-Closed cs)

-- The ids for which the fuel is enough.
abbrev Reached : ℕ → Store → ℕ → Type 0
Reached fuel s i = (s.collection_seq < fuel + i) × (i ≤ s.collection_seq)

-- The loop over roots, given what one step does.
each-Deletes :
    (fuel : ℕ) (f : ℕ → Store → Option Store)
    → ((i : ℕ) (s : Store) → Ordered s → Reached fuel s i → Deletes (f i s) s (i ∷ []))
    → (is : List ℕ) (s : Store) → Ordered s
    → All (Reached fuel s) is
    → Deletes (each f is s) s is
unfolding each
each-Deletes fuel f h [] s o a = record {
  gone = λ _. false;
  left = ap some (sym (erase-nothing s));
  roots_gone = tt;
  closed = nothing-Closed s.collections;
  only = λ i e. absurd (cc);
}
each-Deletes fuel f h (i ∷ is) s o a =
    let d = h i s o a.0 in
    let rest = each-Deletes fuel f h is (erase d.gone s) (erase-Ordered d.gone s o) a.1 in
    record {
      gone = λ x. d.gone x || rest.gone x;
      left = rw (d.left, each) (rest.left ∙ ap some (erase-erase d.gone rest.gone s));
      roots_gone = (
        (let g = d.roots_gone.0 in rw g refl),
        All-mono is (λ x g. ground arith) rest.roots_gone,
      );
      closed = Closed-both d.gone rest.gone s.collections d.closed rest.closed;
      only = λ x g. elim (Bool-cases (d.gone x)) [
        | inl k ↦
            Under-mono s.collections s.collections (i ∷ []) (i ∷ is) x
              (λ y e. itself y (ground arith)) (λ q y e. e) (d.only x k)
        | inr k ↦
            Under-mono (erase d.gone s).collections s.collections is (i ∷ is) x
              (λ y e. itself y (ground arith))
              (λ q y e. any-delete (is_child q y) (λ c. d.gone c.id) s.collections e)
              (rest.only x (sym (ap (λ b. b || rest.gone x) k) ∙ g))
      ];
    }

-- The children that are gone, by their rows.
children_gone :
    (gone : ℕ → Bool) (id : ℕ) (rows : List Collection)
    → All (λ i. gone i ≡ true) (map (λ c. c.id) (keep (has_parent id) rows))
    → All (λ c. has_parent id c ≡ true → gone c.id ≡ true) rows
children_gone gone id [] a = tt
children_gone gone id (c ∷ cs) a =
    let (x, xs) = split (has_parent id c) (keep (has_parent id) cs) a in
    (x, children_gone gone id cs xs)
  where
    split :
        (b : Bool) (rest : List Collection)
        → All (λ i. gone i ≡ true) (map (λ r. r.id) (if b then c ∷ rest else rest))
        → (b ≡ true → gone c.id ≡ true) × All (λ i. gone i ≡ true) (map (λ r. r.id) rest)
    split true rest h = ((λ _. h.0), h.1)
    split false rest h = ((λ e. absurd (cc)), h)

Closed-root :
    (gone : ℕ → Bool) (id : ℕ) (rows : List Collection)
    → Closed gone rows
    → All (λ c. has_parent id c ≡ true → gone c.id ≡ true) rows
    → Closed (λ x. gone x || x == id) rows
Closed-root gone id [] a b = tt
Closed-root gone id (c ∷ cs) a b = (
  λ q e g. elim (Bool-cases (gone q)) [
    | inl k ↦ let z = a.0 q e k in rw z refl
    | inr k ↦
        let w : (q == id) ≡ true = sym (ap (λ x. x || q == id) k) ∙ g in
        let z = b.0 (subst (λ x. has_parent x c ≡ true) ((==_iff q id).0 w) e) in rw z refl
  ],
  Closed-root gone id cs a.1 b.1,
)

-- The children of an id are reached with less fuel.
children-Reached :
    (fuel id : ℕ) (s : Store)
    → Ordered s
    → s.collection_seq ≤ fuel + id
    → All (Reached fuel s) (child_ids s id)
unfolding child_ids
children-Reached fuel id s o h = go s.collections o
  where
    go :
        (rows : List Collection)
        → All (λ c. (c.id ≤ s.collection_seq) × ((q : ℕ) → has_parent q c ≡ true → q < c.id)) rows
        → All (Reached fuel s) (map (λ c. c.id) (keep (has_parent id) rows))
    go [] a = tt
    go (c ∷ cs) a = elim (Bool-cases (has_parent id c)) [
      | inr e ↦ rw e (go cs a.1)
      | inl e ↦
          let l = a.0.1 id e in
          let m = a.0.0 in rw e (((let x = l in omega (arith, h, l)), m), go cs a.1)
    ]

-- The children first, then the root.
root-Deletes :
    (fuel id : ℕ) (s : Store)
    → Deletes (each (delete_recursive fuel) (child_ids s id) s) s (child_ids s id)
    → Deletes (delete_recursive (suc fuel) id s) s (id ∷ [])
unfolding delete_recursive child_ids remove_one
root-Deletes fuel id s d = record {
  gone = λ x. d.gone x || x == id;
  left = rw (d.left, delete_recursive) (ap some (erase-erase d.gone (λ x. x == id) s));
  roots_gone = (ground arith, tt);
  closed =
      Closed-root d.gone id s.collections d.closed
        (children_gone d.gone id s.collections d.roots_gone);
  only = λ x g. elim (Bool-cases (x == id)) [
    | inl e ↦ itself x (ground arith)
    | inr e ↦
        Under-mono s.collections s.collections (child_ids s id) (id ∷ []) x
          (λ y m. below id y (child_ids-child s id y m) (itself id (ground arith))) (λ q y m. m)
          (d.only x (ground arith))
  ];
}

delete_recursive-Deletes :
    (fuel id : ℕ) (s : Store)
    → Ordered s
    → s.collection_seq ≤ fuel + id
    → Deletes (delete_recursive (suc fuel) id s) s (id ∷ [])
delete_recursive-Deletes zero id s o h = root-Deletes zero id s (
    each-Deletes zero (delete_recursive zero) (λ i t p r. absurd (omega (arith, r.0, r.1)))
      (child_ids s id) s o (children-Reached zero id s o h))
delete_recursive-Deletes (suc fuel) id s o h = root-Deletes (suc fuel) id s (
    each-Deletes (suc fuel) (delete_recursive (suc fuel))
      (λ i t p r. delete_recursive-Deletes fuel i t p (omega (arith, r.0))) (child_ids s id) s o
      (children-Reached (suc fuel) id s o h))

-- Where ids grow from parents to children up to the last one given out, Delete ends: it takes the
-- collection, the children of all it takes, and nothing that is not under the collection, with the
-- files in them, and leaves all else.
pub delete_collection-Deletes :
    (s : Store) (id : ℕ) → Ordered s → Deletes (delete_collection s id) s (id ∷ [])
unfolding delete_collection
delete_collection-Deletes s id o = delete_recursive-Deletes s.collection_seq id s o (omega arith)
