-- ===== src/Upload/Keys/Rows.antt =====
-- The single changes of rows, and the stored cache keys.
use indelible.Common.{
  ℕ, suc, ◌≡◌, ◌≤◌, refl, sym, map, Distinct, All-mono, Bool, true, List, [], ◌∷◌, none, some, ◌==◌,
  arith, keep, Option-cases, any, All, Bool-cases, inl, inr, ◌&&◌, ◌||◌, Bytes, bytes_eq, subst,
  some-injective, All-append,
}
use indelible.Common.Sql.{update, affected, All-update}
use indelible.Upload.Row.{Upload, public, is_queued, Store, UploadError, create, fresh, NewUpload}
use indelible.Upload.Marks.{is_empty, key_for_identifier}
use indelible.Upload.Queue.{dequeue_next, guarded, oldest, eligible}
use indelible.Upload.Queue.Claim.{claimed}
use indelible.Upload.Removal.{add_key, cache_keys}
use indelible.Upload.Payments.Sticky.{Action, publishes}
use indelible.Upload.Keys.{Covered, add_key-keeps}
use indelible.Upload.Keys.Ids.{elem-above, Distinct-append, ids-update}

module _ (sha256_hex : Bytes → Bytes) where
  pub record AllCovered (s : Store) : Type 0 where
    pub rows : All (Covered sha256_hex) s.uploads
    pub distinct : Distinct (map (λ u. u.id) s.uploads)
    pub bounded : All (λ u. u.id ≤ s.upload_seq) s.uploads

  pub set-AllCovered :
      (s : Store) (q : Upload → Bool) (f : Upload → Upload)
      → AllCovered s
      → ((u : Upload) → (f u).id ≡ u.id)
      → ((u : Upload) → q u ≡ true → Covered sha256_hex u → Covered sha256_hex (f u))
      → AllCovered (record s { uploads = update q f s.uploads })
  set-AllCovered s q f a i h = record {
    rows = All-update (Covered sha256_hex) q f s.uploads a.rows h;
    distinct = subst Distinct (sym (ids-update q f s.uploads i)) a.distinct;
    bounded =
        All-update (λ u. u.id ≤ s.upload_seq) q f s.uploads a.bounded
          (λ u e l. subst (λ n. n ≤ s.upload_seq) (sym (i u)) l);
  }

  pub stored :
      (id : Bytes) (keys : List Bytes)
      → (is_empty (key_for_identifier sha256_hex id)
          || any (bytes_eq (key_for_identifier sha256_hex id)) keys)
        ≡ true
      → (k : Bytes) → some (key_for_identifier sha256_hex id) ≡ some k
      → (is_empty k || any (bytes_eq k) keys) ≡ true
  stored id keys h k e =
      subst (λ x. (is_empty x || any (bytes_eq x) keys) ≡ true) (some-injective _ _ e) h

  pub guarded-AllCovered :
      (s : Store) (id : ℕ) (p : Upload → Bool) (f : Upload → Upload) (e : UploadError)
      → AllCovered s
      → ((u : Upload) → (f u).id ≡ u.id)
      → ((u : Upload) → Covered sha256_hex u → Covered sha256_hex (f u))
      → AllCovered (guarded s id p f e).0
  guarded-AllCovered s id p f e a i h =
      elim (Bool-cases (affected (λ u. u.id == id && p u) s.uploads == 0)) [
        | inl z ↦ rw z a
        | inr z ↦ rw z (set-AllCovered s (λ u. u.id == id && p u) f a i (λ u _ c. h u c))
      ]

  -- MarkPublished is called for uploads that have no network address yet.
  abbrev pub Publishable : Store → Action → Type 0
  Publishable s (publishes id d) = All (λ u. u.id == id ≡ true → u.datamap_address ≡ none) s.uploads
  Publishable s _ = Unit

  -- A row that gains a network address keeps the key of its DataMap covered.
  published :
      (u : Upload) (d : Bytes)
      → u.datamap_address ≡ none
      → Covered sha256_hex u
      → Covered sha256_hex (record u { visibility = public; datamap_address = some d })
  unfolding cache_keys
  published u d e c k q =
      let own = add_key sha256_hex [] u.data_map in
      let h : (is_empty k || any (bytes_eq k) own) ≡ true =
        subst (λ a. (is_empty k || any (bytes_eq k) (add_key sha256_hex own a)) ≡ true) e (c k q) in
      ground (arith, h, add_key-keeps sha256_hex (bytes_eq k) own (some d))

  pub publish-rows :
      (i : ℕ) (d : Bytes) (us : List Upload)
      → All (λ u. u.id == i ≡ true → u.datamap_address ≡ none) us
      → All (Covered sha256_hex) us
      → All (Covered sha256_hex) (
          update
            (λ u. u.id == i)
            (λ u. record u { visibility = public; datamap_address = some d })
            us)
  unfolding update
  publish-rows i d [] p a = tt
  publish-rows i d (u ∷ us) p a = elim (Bool-cases (u.id == i)) [
    | inl e ↦ rw e (published u d (p.0 e) a.0, publish-rows i d us p.1 a.1)
    | inr e ↦ rw e (a.0, publish-rows i d us p.1 a.1)
  ]

  pub create-AllCovered :
      (s : Store) (n : NewUpload) (now : ℕ) → AllCovered s → AllCovered (create s n now).0
  unfolding create
  create-AllCovered s n now a = elim (Bool-cases (any (λ u. bytes_eq u.uuid n.uuid) s.uploads)) [
    | inl e ↦ rw e a
    | inr e ↦ rw e (record {
      rows =
          All-append (Covered sha256_hex) s.uploads (fresh n (suc s.upload_seq) now ∷ []) a.rows
            ((λ k q. cc), tt);
      distinct =
          Distinct-append s.uploads (fresh n (suc s.upload_seq) now)
            (elem-above s.upload_seq s.uploads a.bounded) a.distinct;
      bounded =
          All-append (λ u. u.id ≤ suc s.upload_seq) s.uploads (fresh n (suc s.upload_seq) now ∷ [])
            (All-mono s.uploads (λ u l. omega (arith, l)) a.bounded) (omega arith, tt);
    })
  ]

  pub dequeue-AllCovered : (s : Store) (now : ℕ) → AllCovered s → AllCovered (dequeue_next s now).0
  unfolding dequeue_next cache_keys
  dequeue-AllCovered s now a = elim (Option-cases (oldest (keep (eligible now) s.uploads))) [
    | inl e ↦ rw (e, dequeue_next) a
    | inr (u, e) ↦
        rw (e, dequeue_next)
          (set-AllCovered s (λ v. v.id == u.id && is_queued v.status) (claimed now) a (λ v. refl)
            λ v _ c. c)
  ]
