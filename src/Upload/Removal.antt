-- ===== src/Upload/Removal.antt =====
-- Deleting an upload, and the purge log by which every instance drops its cached bytes.
pub mod Delete
use indelible.Common.{
  ℕ, suc, Bool, true, false, not, ◌&&◌, ◌||◌, List, [], ◌∷◌, ◌++◌, Option, none, some, ◌==◌, ltb,
  if◌then◌else◌, find, any, keep, take, Bytes, bytes_eq,
}
use indelible.Common.Sql.{delete, affected}
use indelible.Upload.Row.{
  Status, Visibility, queued, processing, Upload, PurgeLogEntry, Store, UploadError, not_deletable,
  constraint_error,
}
use indelible.Upload.Payments.{eq_id}
use indelible.Upload.Marks.{is_empty, key_for_identifier}

abbrev pub is_deletable : Status → Bool
is_deletable queued = false
is_deletable processing = false
is_deletable _ = true

module _ (sha256_hex : Bytes → Bytes) where
  -- One round of the loop of CacheKeys.
  unfoldable pub add_key : List Bytes → Option Bytes → List Bytes
  add_key keys none = keys
  add_key [] (some id) = if is_empty id then [] else key_for_identifier sha256_hex id ∷ []
  add_key (k ∷ keys) (some id) =
      if is_empty id || bytes_eq k (key_for_identifier sha256_hex id)
      then k ∷ keys
      else k ∷ keys ++ key_for_identifier sha256_hex id ∷ []

  unfoldable pub cache_keys : Upload → List Bytes
  unfolding add_key
  cache_keys u = add_key (add_key [] u.data_map) u.datamap_address

  -- `INSERT INTO cache_purge_log`, one row for each key.
  unfoldable pub log_keys : ℕ → ℕ → List Bytes → List PurgeLogEntry
  log_keys seq now [] = []
  log_keys seq now (k ∷ keys) =
      record { id = suc seq; cache_key = k; deleted_at = now } ∷ log_keys (suc seq) now keys

  unfoldable pub add_length : ℕ → List Bytes → ℕ
  add_length seq [] = seq
  add_length seq (k ∷ keys) = add_length (suc seq) keys

  -- The statements of the transaction, in order.
  unfoldable pub delete_tx : Store → Upload → ℕ → ℕ → Store
  unfolding log_keys add_length
  delete_tx s u id now = record s {
    cache_purge_log = s.cache_purge_log ++ log_keys s.purge_seq now (cache_keys u);
    purge_seq = add_length s.purge_seq (cache_keys u);
    file_tags = delete (λ t. t.upload_id == id) s.file_tags;
    collection_files = delete (λ c. c.upload_id == id) s.collection_files;
    uploads = delete (λ v. v.id == id && is_deletable v.status) s.uploads;
  }

  -- A refused delete rolls the whole transaction back. The foreign key of the transactions refuses the
  -- removal of a row that a payment was recorded for.
  unfoldable pub delete_upload : Store → ℕ → ℕ → Store × Option UploadError
  unfolding delete_tx
  delete_upload s id now = elim (find (λ v. v.id == id) s.uploads) [
    | none ↦ (s, some not_deletable)
    | some u ↦
        if affected (λ v. v.id == id && is_deletable v.status) s.uploads == 0
        then (s, some not_deletable)
        else if any (λ t. eq_id t.upload_id id) s.transactions
        then (s, some constraint_error)
        else (delete_tx s u id now, none)
  ]

-- The rows stand in the order of their ids, the order of `ORDER BY id`.
unfoldable pub purge_log_since : Store → ℕ → ℕ → List PurgeLogEntry
purge_log_since s after limit = take limit (keep (λ e. ltb after e.id) s.cache_purge_log)

unfoldable pub prune_purge_log : Store → ℕ → Store × ℕ
prune_purge_log s cutoff = (
  record s { cache_purge_log = delete (λ e. ltb e.deleted_at cutoff) s.cache_purge_log },
  affected (λ e. ltb e.deleted_at cutoff) s.cache_purge_log,
)

-- `SELECT MAX(id)`, 0 for an empty log.
unfoldable pub max_purge_log_id : List PurgeLogEntry → ℕ
max_purge_log_id [] = 0
max_purge_log_id (e ∷ es) = let m = max_purge_log_id es in if ltb m e.id then e.id else m

abbrev pub has_cache_key : Bytes → Upload → Bool
has_cache_key key u = elim u.cache_key [ none ↦ false | some k ↦ bytes_eq k key ]

-- The map's value at a key: of several rows with the key, the last one that is read sets it.
unfoldable pub cache_key_visibility : List Upload → Bytes → Option Visibility
cache_key_visibility [] key = none
cache_key_visibility (u ∷ us) key = elim (cache_key_visibility us key) [
  | some v ↦ some v
  | none ↦ if has_cache_key key u then some u.visibility else none
]
