-- ===== src/Upload/Keys.antt =====
-- The cache keys of an upload (CacheKeys) hold the key of each of its identifiers.
pub mod Ids
pub mod Rows
pub mod Backfill
pub mod Covered
use indelible.Common.{
  ℕ, ◌≡◌, ◌⊎◌, refl, ap, ◌∙◌, sym, Bool, true, false, List, [], ◌∷◌, ◌++◌, Option, none, some, ◌==◌,
  arith, keep, Option-cases, if◌then◌else◌, any, All, Bool-cases, inl, inr, ◌&&◌, ◌||◌, Bytes,
  bytes_eq, bytes_eq_refl, bytes_eq_iff, any-append_right, any-append_left,
}
use indelible.Common.Sql.{update, affected, All-update}
use indelible.Upload.Row.{Upload, Store, UploadError, create, fresh, NewUpload}
use indelible.Upload.Marks.{
  is_empty, key_for_identifier, mark_completed, mark_completed_public, mark_already_stored,
  mark_already_stored_public, mark_published, mark_failed, mark_failed_preserve_temp,
}
use indelible.Upload.Queue.{
  dequeue_next, set_gas_backoff, clear_backoff, requeue_stuck_except, touch_processing, cancel,
  retry, force_retry, guarded, oldest, eligible,
}
use indelible.Upload.Removal.{add_key, cache_keys}
use indelible.Upload.Payments.{record_txn}
use indelible.Upload.Payments.Sticky.{
  Action, creates, completes, completes_public, stores, stores_public, publishes, fails,
  fails_keeping, dequeues, backs_off, clears, forces, sweeps, touches, cancels, retries, pays_for,
  step, run,
}

module _ (sha256_hex : Bytes → Bytes) where
  pub add_key-holds :
      (keys : List Bytes) (id : Bytes)
      → is_empty id ≡ false
      → any (bytes_eq (key_for_identifier sha256_hex id)) (add_key sha256_hex keys (some id)) ≡ true
  unfolding add_key
  add_key-holds [] id h =
      rw h (ap (λ b. b || false) (bytes_eq_refl (key_for_identifier sha256_hex id)))
  add_key-holds (k ∷ keys) id h =
      elim (Bool-cases (bytes_eq k (key_for_identifier sha256_hex id))) [
        | inl e ↦
            rw (h, e, (bytes_eq_iff k (key_for_identifier sha256_hex id)).0 e)
              (ap (λ b. b || any (bytes_eq (key_for_identifier sha256_hex id)) keys)
                (bytes_eq_refl (key_for_identifier sha256_hex id)))
        | inr e ↦
            rw (h, e)
              (any-append_right (bytes_eq (key_for_identifier sha256_hex id)) (k ∷ keys)
                (key_for_identifier sha256_hex id ∷ [])
                (ap (λ b. b || false) (bytes_eq_refl (key_for_identifier sha256_hex id))))
      ]

  pub add_key-keeps :
      (q : Bytes → Bool) (keys : List Bytes) (id : Option Bytes)
      → any q keys ≡ true
      → any q (add_key sha256_hex keys id) ≡ true
  unfolding add_key
  add_key-keeps q keys none h = h
  add_key-keeps q [] (some id) h = cc
  add_key-keeps q (k ∷ keys) (some id) h =
      elim (Bool-cases (is_empty id || bytes_eq k (key_for_identifier sha256_hex id))) [
        | inl e ↦ rw e h
        | inr e ↦ rw e (any-append_left q (k ∷ keys) (key_for_identifier sha256_hex id ∷ []) h)
      ]

  -- The stored key is null, empty, or one of the keys that a purge of the row covers.
  abbrev pub Covered : Upload → Type 0
  Covered u =
      (k : Bytes)
      → u.cache_key ≡ some k
      → (is_empty k || any (bytes_eq k) (cache_keys sha256_hex u)) ≡ true

  pub from_data_map :
      (id : Bytes) (addr : Option Bytes)
      → (is_empty (key_for_identifier sha256_hex id)
          || any
              (bytes_eq (key_for_identifier sha256_hex id))
              (add_key sha256_hex (add_key sha256_hex [] (some id)) addr))
        ≡ true
  from_data_map id addr = elim (Bool-cases (is_empty id)) [
    | inl e ↦ unfold key_for_identifier in rw e refl
    | inr e ↦ ground (
      arith,
      add_key-keeps (bytes_eq (key_for_identifier sha256_hex id)) (add_key sha256_hex [] (some id))
          addr (add_key-holds [] id e),
    )
  ]

  pub from_address :
      (id : Bytes) (keys : List Bytes)
      → (is_empty (key_for_identifier sha256_hex id)
          || any (bytes_eq (key_for_identifier sha256_hex id)) (add_key sha256_hex keys (some id)))
        ≡ true
  from_address id keys = elim (Bool-cases (is_empty id)) [
    | inl e ↦ unfold key_for_identifier in rw e refl
    | inr e ↦ ground (arith, add_key-holds keys id e)
  ]
