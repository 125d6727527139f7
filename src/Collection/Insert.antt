-- ===== src/Collection/Insert.antt =====
-- Create and Update of internal/services/collection.go.
use indelible.Common.{
  ℕ, suc, ◌≡◌, ◌<◌, ◌≤◌, refl, sym, ap, subst, ◌∙◌, true, false, ◌||◌, List, [], ◌∷◌, Option, none,
  some, ◌==◌, any, any-append_left, All, All-mono, All-append, arith, ==_iff, Bool-cases, inl, inr,
  Bytes,
}
use indelible.Common.Sql.{update, any-update, All-update}
use indelible.Collection.{
  Collection, Store, has_parent, has_id, is_missing, insert_collection, create_collection,
  update_collection,
}
use indelible.Collection.Consistent.{HasParent, Consistent}
use indelible.Collection.Consistent.{HasParent, Consistent}

-- A row of the table has an id that was given out.
has_id-le :
    (seq q : ℕ) (rows : List Collection)
    → All (λ c. (c.id ≤ seq) × ((x : ℕ) → has_parent x c ≡ true → x < c.id)) rows
    → any (has_id q) rows ≡ true
    → q ≤ seq
has_id-le seq q [] a h = absurd (cc)
has_id-le seq q (c ∷ cs) a h = elim (Bool-cases (c.id == q)) [
  | inl e ↦ let i = (==_iff c.id q).0 e in let l = a.0.0 in omega (arith, i, l)
  | inr e ↦ has_id-le seq q cs a.1 (sym (ap (λ b. b || any (has_id q) cs) e) ∙ h)
]

parent-found :
    (s : Store) (o : Option ℕ) (q : ℕ)
    → is_missing s o ≡ false
    → elim o [ none ↦ false | some x ↦ x == q ] ≡ true
    → any (has_id q) s.collections ≡ true
unfolding is_missing
parent-found s none q m h = absurd (cc)
parent-found s (some x) q m h =
    let e = (==_iff x q).0 h in
    let g : any (has_id x) s.collections ≡ true = ground arith in
    subst (λ y. any (has_id y) s.collections ≡ true) e g

insert-Consistent :
    (s : Store) (name description : Bytes) (parent_id : Option ℕ) (created_by now : ℕ)
    → is_missing s parent_id ≡ false
    → Consistent s
    → Consistent (insert_collection s name description parent_id created_by now)
insert-Consistent s name description parent_id created_by now m w =
    let s' = insert_collection s name description parent_id created_by now in
    let new : Collection = record {
      id = suc s.collection_seq;
      name = name;
      description = description;
      parent_id = parent_id;
      created_by = created_by;
      updated_at = now;
    } in
    let grown = λ (q : ℕ) (h : any (has_id q) s.collections ≡ true).
      any-append_left (has_id q) s.collections (new ∷ []) h in
    record {
      ordered =
          All-append
            (λ c. (c.id ≤ s'.collection_seq) × ((q : ℕ) → has_parent q c ≡ true → q < c.id))
            s.collections (new ∷ [])
            (All-mono s.collections (λ c h. ((let l = h.0 in omega (arith, l)), h.1)) w.ordered)
            (
              (
                omega arith,
                λ q h.
                    let l =
                      has_id-le s.collection_seq q s.collections w.ordered
                        (parent-found s parent_id q m h) in
                    omega (arith, l),
              ),
              tt,
            );
      parents =
          All-append (HasParent s'.collections) s.collections (new ∷ [])
            (All-mono s.collections (λ c h q e. grown q (h q e)) w.parents)
            ((λ q h. grown q (parent-found s parent_id q m h)), tt);
      files_in = All-mono s.collection_files (λ f h. grown f.collection_id h) w.files_in;
      unique = w.unique;
    }

pub create-Consistent :
    (s : Store) (name description : Bytes) (parent_id : Option ℕ) (created_by now : ℕ)
    → Consistent s
    → Consistent (create_collection s name description parent_id created_by now).0
unfolding create_collection
create-Consistent s name description parent_id created_by now w =
    elim (Bool-cases (is_missing s parent_id)) [
      | inl m ↦ rw m w
      | inr m ↦ elim (Bool-cases (any (λ u. u == created_by) s.users)) [
        | inl u ↦ rw (m, u) (insert-Consistent s name description parent_id created_by now m w)
        | inr u ↦ rw (m, u) w
      ]
    ]

pub update-Consistent :
    (s : Store) (id : ℕ) (name description : Bytes) (now : ℕ)
    → Consistent s
    → Consistent (update_collection s id name description now).0
unfolding update_collection
update-Consistent s id name description now w =
    let f : Collection → Collection =
      λ c. record c { name = name; description = description; updated_at = now } in
    let same = λ (q : ℕ). any-update (has_id id) f (has_id q) s.collections (λ r e. refl) in
    record {
      ordered =
          All-update (λ c. (c.id ≤ s.collection_seq) × ((q : ℕ) → has_parent q c ≡ true → q < c.id))
            (has_id id) f s.collections w.ordered (λ r e h. h);
      parents =
          All-update (HasParent (update (has_id id) f s.collections)) (has_id id) f s.collections
            (All-mono s.collections (λ c h q e. same q ∙ h q e) w.parents) (λ r e h. h);
      files_in = All-mono s.collection_files (λ g h. same g.collection_id ∙ h) w.files_in;
      unique = w.unique;
    }
