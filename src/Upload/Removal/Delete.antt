-- ===== src/Upload/Removal/Delete.antt =====
-- What a delete removes, what it logs, and what a reader of the log sees.
use indelible.Common.{
  ℕ, zero, suc, ◌≤◌, ◌≡◌, ◌⊎◌, refl, ap, ◌∙◌, sym, subst, Bool, true, false, List, [], ◌∷◌, ◌++◌,
  Option, none, some, ◌==◌, arith, any, All, Bool-cases, Option-cases, inl, inr, ◌&&◌, ltb,
  some-injective, map, keep, take, keep-append, Bytes, length,
}
use indelible.Common.Sql.{delete, affected}
use indelible.Upload.Row.{
  Upload, Store, UploadError, PurgeLogEntry, not_deletable, constraint_error,
}
use indelible.Upload.Payments.{eq_id}
use indelible.Upload.Queue.Oldest.{row}
use indelible.Upload.Removal.{
  is_deletable, cache_keys, log_keys, delete_tx, delete_upload, purge_log_since,
}

any-keep_not : {A : Type 0} (p : A → Bool) (xs : List A) → any p (delete p xs) ≡ false
any-keep_not p [] = refl
any-keep_not p (x ∷ xs) = ground (arith, any-keep_not p xs)

any-none_kept :
    {A : Type 0} (p : A → Bool) (xs : List A) → (length (keep p xs) == 0) ≡ true → any p xs ≡ false
any-none_kept p [] h = refl
any-none_kept p (x ∷ xs) h = ground (arith, any-none_kept p xs)

any-some_kept :
    {A : Type 0} (p : A → Bool) (xs : List A) → (length (keep p xs) == 0) ≡ false → any p xs ≡ true
any-some_kept p [] h = absurd (ground arith)
any-some_kept p (x ∷ xs) h = ground (arith, any-some_kept p xs)

abbrev pub deletes_row : ℕ → Upload → Bool
deletes_row id v = v.id == id && is_deletable v.status

module _ (sha256_hex : Bytes → Bytes) where
  -- What Delete returns and leaves.
  abbrev pub Deletes : Store → ℕ → ℕ → Store × Option UploadError → Type 0
  Deletes s id now r =
      ((any (deletes_row id) s.uploads ≡ false) × (r ≡ (s, some not_deletable)))
      ⊎ ((any (deletes_row id) s.uploads ≡ true)
          × (any (λ t. eq_id t.upload_id id) s.transactions ≡ true)
          × (r ≡ (s, some constraint_error)))
      ⊎ ((u : Upload) × (row id s.uploads ≡ some u)
          × (r.1 ≡ none)
          × (any (λ t. eq_id t.upload_id id) s.transactions ≡ false)
          × (any (deletes_row id) r.0.uploads ≡ false)
          × (any (λ t. t.upload_id == id) r.0.file_tags ≡ false)
          × (any (λ c. c.upload_id == id) r.0.collection_files ≡ false)
          × (r.0.cache_purge_log
              ≡ s.cache_purge_log ++ log_keys sha256_hex s.purge_seq now (cache_keys sha256_hex u))
          × (r.0.transactions ≡ s.transactions))

  no_row : (id : ℕ) (us : List Upload) → row id us ≡ none → any (deletes_row id) us ≡ false
  no_row id [] h = refl
  no_row id (u ∷ us) h = ground (arith, no_row id us)

  accepted :
      (s : Store) (id now : ℕ) (u : Upload)
      → row id s.uploads ≡ some u
      → (affected (deletes_row id) s.uploads == 0) ≡ false
      → any (λ t. eq_id t.upload_id id) s.transactions ≡ false
      → delete_upload sha256_hex s id now ≡ (delete_tx sha256_hex s u id now, none)
  unfolding delete_upload
  accepted s id now u e z f = rw (e, delete_upload, z, f) refl

  -- Delete is refused exactly where no row of that id is failed, completed or already stored, and
  -- then changes nothing; it fails and changes nothing too where a transaction refers to the upload.
  -- Otherwise the row goes with its tags and collection links, the purge log gains one entry for each
  -- cache key of the row, and the ledger stays.
  pub delete_upload-Deletes :
      (s : Store) (id now : ℕ) → Deletes s id now (delete_upload sha256_hex s id now)
  unfolding delete_upload
  delete_upload-Deletes s id now = elim (Option-cases (row id s.uploads)) [
    | inl e ↦ inl (no_row id s.uploads e, rw (e, delete_upload) refl)
    | inr (u, e) ↦ elim (Bool-cases (affected (deletes_row id) s.uploads == 0)) [
      | inl z ↦ inl (any-none_kept (deletes_row id) s.uploads z, rw (e, delete_upload, z) refl)
      | inr z ↦ elim (Bool-cases (any (λ t. eq_id t.upload_id id) s.transactions)) [
        | inl f ↦
            inr (
              inl (any-some_kept (deletes_row id) s.uploads z, f, rw (e, delete_upload, z, f) refl))
        | inr f ↦ subst (Deletes s id now) (sym (accepted s id now u e z f)) (
            inr (
              inr (
                u,
                e,
                refl,
                f,
                any-keep_not (deletes_row id) s.uploads,
                any-keep_not (λ t. t.upload_id == id) s.file_tags,
                any-keep_not (λ c. c.upload_id == id) s.collection_files,
                refl,
                refl,
              )))
      ]
    ]
  ]

none_after :
    (n : ℕ) (log : List PurgeLogEntry) → All (λ e. e.id ≤ n) log → keep (λ e. ltb n e.id) log ≡ []
none_after n [] h = refl
none_after n (e ∷ log) h = ground (arith, none_after n log h.1)

module _ (sha256_hex : Bytes → Bytes) where
  all_after :
      (n seq now : ℕ) (keys : List Bytes)
      → n ≤ seq
      → keep (λ e. ltb n e.id) (log_keys sha256_hex seq now keys) ≡ log_keys sha256_hex seq now keys
  unfolding log_keys
  all_after n seq now [] h = refl
  all_after n seq now (k ∷ keys) h = elim (Bool-cases (ltb n (suc seq))) [
    | inl e ↦ rw (e, all_after n (suc seq) now keys (omega arith)) refl
    | inr e ↦ absurd (ground arith)
  ]

  keys-take-log_keys :
      (limit seq now : ℕ) (keys : List Bytes)
      → map (λ e. e.cache_key) (take limit (log_keys sha256_hex seq now keys)) ≡ take limit keys
  unfolding log_keys
  keys-take-log_keys zero seq now keys = refl
  keys-take-log_keys (suc n) seq now [] = refl
  keys-take-log_keys (suc n) seq now (k ∷ keys) =
      ap (◌∷◌ k) (keys-take-log_keys n (suc seq) now keys)

  logged :
      (s s' : Store) (id now : ℕ) (u : Upload)
      → row id s.uploads ≡ some u
      → Deletes sha256_hex s id now (s', none)
      → s'.cache_purge_log
        ≡ s.cache_purge_log ++ log_keys sha256_hex s.purge_seq now (cache_keys sha256_hex u)
  logged s s' id now u e (inl (n, r)) = cc (ap (λ p. p.1) r)
  logged s s' id now u e (inr (inl (n, f, r))) = cc (ap (λ p. p.1) r)
  logged s s' id now u e (inr (inr (w, q, _, _, _, _, _, log, _))) =
      subst
        (λ x.
          s'.cache_purge_log
          ≡ s.cache_purge_log ++ log_keys sha256_hex s.purge_seq now (cache_keys sha256_hex x))
        (some-injective _ _ (sym q ∙ e)) log

  -- An instance that has read the purge log up to some id, with no entry above it, sees after a
  -- successful Delete exactly the cache keys of the deleted row, up to the limit of the read.
  pub purge_log_since-delete_upload :
      (s s' : Store) (id now after limit : ℕ) (u : Upload)
      → All (λ e. e.id ≤ after) s.cache_purge_log
      → after ≤ s.purge_seq
      → row id s.uploads ≡ some u
      → delete_upload sha256_hex s id now ≡ (s', none)
      → map (λ e. e.cache_key) (purge_log_since s' after limit)
        ≡ take limit (cache_keys sha256_hex u)
  unfolding purge_log_since
  purge_log_since-delete_upload s s' id now after limit u past h e d =
      let fresh = log_keys sha256_hex s.purge_seq now (cache_keys sha256_hex u) in
      let log =
        logged s s' id now u e
          (subst (Deletes sha256_hex s id now) d (delete_upload-Deletes sha256_hex s id now)) in
      let seen : keep (λ x. ltb after x.id) s'.cache_purge_log ≡ fresh =
        ap (keep (λ x. ltb after x.id)) log
        ∙ keep-append (λ x. ltb after x.id) s.cache_purge_log fresh
        ∙ ap (λ l. l ++ keep (λ x. ltb after x.id) fresh) (none_after after s.cache_purge_log past)
        ∙ all_after after s.purge_seq now (cache_keys sha256_hex u) h in
      ap (λ l. map (λ x. x.cache_key) (take limit l)) seen
      ∙ keys-take-log_keys limit s.purge_seq now (cache_keys sha256_hex u)
