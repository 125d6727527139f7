-- ===== src/Upload/Row.antt =====
-- The table `uploads` with the tables its statements touch: transactions, tags, collection links
-- and the purge log. Times are in seconds, the precision of CURRENT_TIMESTAMP; columns that hold
-- amounts are kept as text.
use indelible.Common.{
  ℕ, suc, Bool, true, false, List, [], ◌∷◌, ◌++◌, Option, none, some, ◌==◌, if◌then◌else◌, find,
  any, Bytes, Result, ok, err, bytes_eq,
}
use indelible.Common.Sql.{update}

pub data Status : Type 0 where
  queued processing completed failed already_stored : Status

pub data Visibility : Type 0 where
  public private : Visibility

-- `status_detail`.
pub data Detail : Type 0 where
  gas_backoff paid_unfinalized payment_unconfirmed : Detail
  other_detail : Bytes → Detail

pub record Upload : Type 0 where
  pub id : ℕ
  pub uuid : Bytes
  pub user_id : ℕ
  pub token_id : Option ℕ
  pub filename : Bytes
  pub original_filename : Bytes
  pub file_size : ℕ
  pub content_type : Bytes
  pub visibility : Visibility
  pub status : Status
  pub status_detail : Option Detail
  pub datamap_address : Option Bytes
  pub estimated_cost : Option Bytes
  pub actual_cost : Option Bytes
  pub error_message : Option Bytes
  pub temp_path : Option Bytes
  pub data_map : Option Bytes
  pub backoff_until : Option ℕ
  pub backoff_attempt : ℕ
  pub last_quoted_cost : Option Bytes
  pub queued_at : ℕ
  pub processing_at : Option ℕ
  pub completed_at : Option ℕ
  pub failed_at : Option ℕ
  pub created_at : ℕ
  pub cache_key : Option Bytes
  pub payment_floor_txn_id : ℕ

pub record Transaction : Type 0 where
  pub id : ℕ
  pub wallet_id : ℕ
  pub upload_id : Option ℕ
  pub tx_type : Bytes
  pub amount : Bytes
  pub balance_after : Bytes
  pub tx_hash : Option Bytes

pub record Tag : Type 0 where
  pub upload_id : ℕ
  pub tag_key : Bytes
  pub tag_value : Bytes

pub record CollectionFile : Type 0 where
  pub collection_id : ℕ
  pub upload_id : ℕ

pub record PurgeLogEntry : Type 0 where
  pub id : ℕ
  pub cache_key : Bytes
  pub deleted_at : ℕ

-- The fields `…_seq` are the AUTOINCREMENT counters; `wallet_ids` are the ids of the table `wallets`.
pub record Store : Type 0 where
  pub uploads : List Upload
  pub upload_seq : ℕ
  pub transactions : List Transaction
  pub txn_seq : ℕ
  pub file_tags : List Tag
  pub collection_files : List CollectionFile
  pub cache_purge_log : List PurgeLogEntry
  pub purge_seq : ℕ
  pub wallet_ids : List ℕ

-- `constraint_error` is a violation of a foreign key that the code passes on as it is.
pub data UploadError : Type 0 where
  upload_not_found not_cancellable not_failed not_in_backoff not_deletable uuid_taken
        constraint_error :
      UploadError

abbrev pub is_queued : Status → Bool
is_queued queued = true
is_queued _ = false

abbrev pub is_processing : Status → Bool
is_processing processing = true
is_processing _ = false

abbrev pub is_failed : Status → Bool
is_failed failed = true
is_failed _ = false

abbrev pub is_gas_backoff : Option Detail → Bool
is_gas_backoff (some gas_backoff) = true
is_gas_backoff _ = false

unfoldable pub get_by_id : Store → ℕ → Result UploadError Upload
get_by_id s id = elim (find (λ u. u.id == id) s.uploads) [
  | none ↦ err upload_not_found
  | some u ↦ ok u
]

unfoldable pub get_by_uuid : Store → Bytes → Result UploadError Upload
get_by_uuid s uuid = elim (find (λ u. bytes_eq u.uuid uuid) s.uploads) [
  | none ↦ err upload_not_found
  | some u ↦ ok u
]

-- `UPDATE uploads SET f WHERE id = ?`.
abbrev pub set_row : ℕ → (Upload → Upload) → Store → Store
set_row id f s = record s { uploads = update (λ u. u.id == id) f s.uploads }

-- The identifiers and the descriptive columns that an upload is created with.
pub record NewUpload : Type 0 where
  pub uuid : Bytes
  pub user_id : ℕ
  pub token_id : Option ℕ
  pub filename : Bytes
  pub original_filename : Bytes
  pub file_size : ℕ
  pub content_type : Bytes
  pub visibility : Visibility
  pub temp_path : Bytes
  pub estimated_cost : Option Bytes

abbrev pub fresh : NewUpload → ℕ → ℕ → Upload
fresh n id now = record {
  id = id;
  uuid = n.uuid;
  user_id = n.user_id;
  token_id = n.token_id;
  filename = n.filename;
  original_filename = n.original_filename;
  file_size = n.file_size;
  content_type = n.content_type;
  visibility = n.visibility;
  status = queued;
  status_detail = none;
  datamap_address = none;
  estimated_cost = n.estimated_cost;
  actual_cost = none;
  error_message = none;
  temp_path = some n.temp_path;
  data_map = none;
  backoff_until = none;
  backoff_attempt = 0;
  last_quoted_cost = none;
  queued_at = now;
  processing_at = none;
  completed_at = none;
  failed_at = none;
  created_at = now;
  cache_key = none;
  payment_floor_txn_id = 0;
}

-- `uuid` is drawn by the caller of the model; the column is UNIQUE.
unfoldable pub create : Store → NewUpload → ℕ → Store × Result UploadError Upload
unfolding get_by_id
create s n now =
    if any (λ u. bytes_eq u.uuid n.uuid) s.uploads
    then (s, err uuid_taken)
    else let id = suc s.upload_seq in
      let s' = record s { uploads = s.uploads ++ fresh n id now ∷ []; upload_seq = id } in
      (s', get_by_id s' id)
