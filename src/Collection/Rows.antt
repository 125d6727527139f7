-- ===== src/Collection/Rows.antt =====
-- The calls of internal/services/collection.go in any sequence.
use indelible.Common.{
  ℕ, ◌≡◌, refl, sym, ap, ◌∙◌, Bool, true, false, ◌||◌, List, [], ◌∷◌, ◌++◌, Option, none, some,
  ◌==◌, any, any-append, All, All-append, arith, ==_iff, Bool-cases, inl, inr, Bytes,
}
use indelible.Common.Sql.{delete}
use indelible.Collection.{
  Collection, CollectionFile, Store, has_parent, has_id, is_file, create_collection,
  update_collection, delete_collection, add_file, remove_file,
}
use indelible.Collection.Tree.{Closed, erase, All-delete}
use indelible.Collection.Delete.{delete_collection-Deletes, erase-Ordered}
use indelible.Collection.Consistent.{HasParent, InRow, UniqueFiles, Consistent}
use indelible.Collection.Insert.{create-Consistent, update-Consistent}

pub data Call : Type 0 where
  creates : Bytes → Bytes → Option ℕ → ℕ → ℕ → Call
  updates : ℕ → Bytes → Bytes → ℕ → Call
  deletes : ℕ → Call
  adds : ℕ → ℕ → ℕ → Call
  removes : ℕ → ℕ → Call

abbrev pub or_same : Store → Option Store → Store
or_same s none = s
or_same s (some s') = s'

unfoldable pub step : Store → Call → Store
step s (creates name description parent_id created_by now) =
    (create_collection s name description parent_id created_by now).0
step s (updates id name description now) = (update_collection s id name description now).0
step s (deletes id) = or_same s (delete_collection s id)
step s (adds collection_id upload_id now) = (add_file s collection_id upload_id now).0
step s (removes collection_id upload_id) = (remove_file s collection_id upload_id).0

unfoldable pub run : Store → List Call → Store
run s [] = s
run s (c ∷ cs) = run (step s c) cs

UniqueFiles-delete :
    (d : CollectionFile → Bool) (fs : List CollectionFile)
    → UniqueFiles fs
    → UniqueFiles (delete d fs)
UniqueFiles-delete d [] u = tt
UniqueFiles-delete d (f ∷ fs) u = elim (Bool-cases (d f)) [
  | inl h ↦ rw h (UniqueFiles-delete d fs u.1)
  | inr h ↦
      rw h (any-none (is_file f.collection_id f.upload_id) fs u.0, UniqueFiles-delete d fs u.1)
]
  where
    any-none :
        (p : CollectionFile → Bool) (gs : List CollectionFile)
        → any p gs ≡ false
        → any p (delete d gs) ≡ false
    any-none p [] h = h
    any-none p (g ∷ gs) h = let i = any-none p gs in ground arith

-- A collection that stays keeps its row.
has_id-erase :
    (gone : ℕ → Bool) (q : ℕ) (rows : List Collection)
    → gone q ≡ false
    → any (has_id q) rows ≡ true
    → any (has_id q) (delete (λ c. gone c.id) rows) ≡ true
has_id-erase gone q [] g h = h
has_id-erase gone q (c ∷ cs) g h = elim (Bool-cases (c.id == q)) [
  | inl e ↦ let k : gone c.id ≡ false = ap gone ((==_iff c.id q).0 e) ∙ g in rw k (rw e refl)
  | inr e ↦
      let i = has_id-erase gone q cs g (sym (ap (λ b. b || any (has_id q) cs) e) ∙ h) in
      elim (Bool-cases (gone c.id)) [ inl k ↦ rw k i | inr k ↦ rw k (rw e i) ]
]

-- What the kept rows have by what all rows have.
All-kept {ℓ κ μ} :
    {A : Type ℓ} (P : A → Type κ) (Q : A → Type μ) (d : A → Bool) (xs : List A)
    → ((x : A) → P x → d x ≡ false → Q x)
    → All P xs
    → All Q (delete d xs)
All-kept P Q d [] f a = tt
All-kept P Q d (x ∷ xs) f a = elim (Bool-cases (d x)) [
  | inl h ↦ rw h (All-kept P Q d xs f a.1)
  | inr h ↦ rw h (f x a.0 h, All-kept P Q d xs f a.1)
]

All-and {ℓ κ μ} :
    {A : Type ℓ} (P : A → Type κ) (Q : A → Type μ) (xs : List A)
    → All P xs
    → All Q xs
    → All (λ x. P x × Q x) xs
All-and P Q [] a b = tt
All-and P Q (x ∷ xs) a b = ((a.0, b.0), All-and P Q xs a.1 b.1)

erase-Consistent :
    (gone : ℕ → Bool) (s : Store)
    → Closed gone s.collections
    → Consistent s
    → Consistent (erase gone s)
erase-Consistent gone s closed w =
    let Child : Collection → Type 0 =
      λ c. (q : ℕ) → has_parent q c ≡ true → gone q ≡ true → gone c.id ≡ true in
    let rows' = (erase gone s).collections in
    record {
      ordered = erase-Ordered gone s w.ordered;
      parents =
          All-kept (λ c. HasParent s.collections c × Child c) (HasParent rows') (λ c. gone c.id)
            s.collections
            (λ c h k q e.
              let g = stays c.id q k (h.1 q e) in has_id-erase gone q s.collections g (h.0 q e))
            (All-and (HasParent s.collections) Child s.collections w.parents closed);
      files_in =
          All-kept (InRow s.collections) (InRow rows') (λ f. gone f.collection_id)
            s.collection_files (λ f h k. has_id-erase gone f.collection_id s.collections k h)
            w.files_in;
      unique = UniqueFiles-delete (λ f. gone f.collection_id) s.collection_files w.unique;
    }
  where
    stays : (i q : ℕ) → gone i ≡ false → (gone q ≡ true → gone i ≡ true) → gone q ≡ false
    stays i q k f = elim (Bool-cases (gone q)) [ inl g ↦ let h = f g in absurd (cc) | inr g ↦ g ]

UniqueFiles-append :
    (fs : List CollectionFile) (g : CollectionFile)
    → any (is_file g.collection_id g.upload_id) fs ≡ false
    → UniqueFiles fs
    → UniqueFiles (fs ++ g ∷ [])
UniqueFiles-append [] g n u = (refl, tt)
UniqueFiles-append (f ∷ fs) g n u = (
  (let a = any-append (is_file f.collection_id f.upload_id) fs (g ∷ []) in
      let x = u.0 in ground arith),
  UniqueFiles-append fs g (ground arith) u.1,
)

add-Consistent :
    (s : Store) (collection_id upload_id now : ℕ)
    → Consistent s
    → Consistent (add_file s collection_id upload_id now).0
unfolding add_file
add-Consistent s collection_id upload_id now w =
    let new : CollectionFile = record {
      collection_id = collection_id;
      upload_id = upload_id;
      added_at = now;
    } in
    elim (Bool-cases (any (is_file collection_id upload_id) s.collection_files)) [
      | inl m ↦ rw m w
      | inr m ↦ elim (Bool-cases (any (has_id collection_id) s.collections)) [
        | inr c ↦ rw (m, c) w
        | inl c ↦ elim (Bool-cases (any (λ u. u == upload_id) s.uploads)) [
          | inr u ↦ rw (m, c, u) w
          | inl u ↦
              rw (m, c, u)
                (record {
                  ordered = w.ordered;
                  parents = w.parents;
                  files_in =
                      All-append (InRow s.collections) s.collection_files (new ∷ []) w.files_in
                        (c, tt);
                  unique = UniqueFiles-append s.collection_files new m w.unique;
                })
        ]
      ]
    ]

step-Consistent : (s : Store) (c : Call) → Consistent s → Consistent (step s c)
unfolding step remove_file
step-Consistent s (creates name description parent_id created_by now) w =
    create-Consistent s name description parent_id created_by now w
step-Consistent s (updates id name description now) w =
    update-Consistent s id name description now w
step-Consistent s (deletes id) w =
    let d = delete_collection-Deletes s id w.ordered in
    rw d.left (erase-Consistent d.gone s d.closed w)
step-Consistent s (adds collection_id upload_id now) w =
    add-Consistent s collection_id upload_id now w
step-Consistent s (removes collection_id upload_id) w = record {
  ordered = w.ordered;
  parents = w.parents;
  files_in =
      All-delete (InRow s.collections) (is_file collection_id upload_id) s.collection_files
        w.files_in;
  unique = UniqueFiles-delete (is_file collection_id upload_id) s.collection_files w.unique;
}

-- Any calls of Create, Update, Delete, AddFile and RemoveFile keep the tables consistent: ids grow
-- from parents to children up to the last one given out, every parent and every collection of a file
-- has a row, and no file stands twice in a collection.
pub run-Consistent : (s : Store) (cs : List Call) → Consistent s → Consistent (run s cs)
unfolding run
run-Consistent s [] w = w
run-Consistent s (c ∷ cs) w = run-Consistent (step s c) cs (step-Consistent s c w)
