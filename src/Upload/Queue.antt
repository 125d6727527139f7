-- ===== src/Upload/Queue.antt =====
-- The queue: claiming, heartbeats, backoff, requeueing, and the operator's actions.
pub mod Oldest
pub mod Claim
pub mod Sweep
use indelible.Common.{
  ℕ, ◌-◌, Bool, true, false, not, ◌&&◌, ◌||◌, List, [], ◌∷◌, ◌++◌, Option, none, some, ◌==◌, leb,
  ltb, if◌then◌else◌, keep, any, elem, Bytes, text, Result, ok, err, map,
}
use indelible.Common.Sql.{update, affected}
use indelible.Upload.Row.{
  Status, queued, processing, completed, failed, already_stored, Detail, gas_backoff,
  paid_unfinalized, payment_unconfirmed, Upload, Transaction, Store, UploadError, not_cancellable,
  not_failed, not_in_backoff, is_queued, is_processing, is_failed, is_gas_backoff, get_by_id,
  set_row,
}
use indelible.Upload.Marks.{is_empty}

abbrev pub is_due : ℕ → Option ℕ → Bool
is_due now none = true
is_due now (some t) = leb t now

-- The WHERE clause of the claim.
abbrev pub eligible : ℕ → Upload → Bool
eligible now u = is_queued u.status && is_due now u.backoff_until

-- `ORDER BY queued_at ASC LIMIT 1`, the first of equals.
unfoldable pub oldest : List Upload → Option Upload
oldest [] = none
oldest (u ∷ us) = elim (oldest us) [
  | none ↦ some u
  | some v ↦ some (if leb u.queued_at v.queued_at then u else v)
]

abbrev pub claim : ℕ → ℕ → Store → Store
claim now id s = record s {
  uploads =
      update (λ u. u.id == id && is_queued u.status)
        (λ u. record u { status = processing; processing_at = some now }) s.uploads;
}

unfoldable pub dequeue_next : Store → ℕ → Store × Result UploadError (Option Upload)
unfolding oldest get_by_id
dequeue_next s now = elim (oldest (keep (eligible now) s.uploads)) [
  | none ↦ (s, ok none)
  | some u ↦
      let s' = claim now u.id s in
      (s', elim (get_by_id s' u.id) [ ok v ↦ ok (some v) | err e ↦ err e ])
]

unfoldable pub set_gas_backoff : Store → ℕ → ℕ → ℕ → Bytes → Store
set_gas_backoff s id until attempt quoted_cost =
    set_row id
      (λ u. record u {
        status = queued;
        status_detail = some gas_backoff;
        backoff_until = some until;
        backoff_attempt = attempt;
        last_quoted_cost = some quoted_cost;
        processing_at = none;
      })
      s

unfoldable pub clear_backoff : Store → ℕ → Store
clear_backoff s id = set_row id (λ u. record u { status_detail = none; backoff_until = none }) s

-- `processing_at < cutoff`, false on NULL.
abbrev pub before : Option ℕ → ℕ → Bool
before none cutoff = false
before (some t) cutoff = ltb t cutoff

-- The WHERE clause of the sweep. `now - timeout` stops at the epoch.
abbrev pub is_stuck : ℕ → ℕ → List ℕ → Upload → Bool
is_stuck now timeout exclude u =
    is_processing u.status && before u.processing_at (now - timeout) && not (elem u.id exclude)

unfoldable pub requeue_stuck_except : Store → ℕ → ℕ → List ℕ → Store × ℕ
requeue_stuck_except s now timeout exclude = (
  record s {
    uploads =
        update (is_stuck now timeout exclude)
          (λ u. record u { status = queued; processing_at = none }) s.uploads;
  },
  affected (is_stuck now timeout exclude) s.uploads,
)

unfoldable pub touch_processing : Store → ℕ → ℕ → Store
touch_processing s id now = record s {
  uploads =
      update (λ u. u.id == id && is_processing u.status)
        (λ u. record u { processing_at = some now }) s.uploads;
}

-- An `UPDATE … WHERE id = ? AND p` that fails where it affects no row.
abbrev pub guarded :
    Store → ℕ → (Upload → Bool) → (Upload → Upload) → UploadError → Store × Option UploadError
guarded s id p f e =
    if affected (λ u. u.id == id && p u) s.uploads == 0
    then (s, some e)
    else (record s { uploads = update (λ u. u.id == id && p u) f s.uploads }, none)

unfoldable pub cancel : Store → ℕ → ℕ → Store × Option UploadError
cancel s id now =
    guarded s id (λ u. is_queued u.status || is_processing u.status)
      (λ u. record u {
        status = failed;
        error_message = some (text "Cancelled by user");
        status_detail = none;
        backoff_until = none;
        failed_at = some now;
        temp_path = none;
      })
      not_cancellable

-- `COALESCE(MAX(t.id), 0)` over the transactions of an upload.
unfoldable pub max_txn_id : ℕ → List Transaction → ℕ
max_txn_id id [] = 0
max_txn_id id (t ∷ ts) =
    let rest = max_txn_id id ts in
    elim t.upload_id [ none ↦ rest | some u ↦ if u == id && leb rest t.id then t.id else rest ]

unfoldable pub retry : Store → ℕ → ℕ → Store × Option UploadError
unfolding max_txn_id
retry s id now =
    guarded s id (λ u. is_failed u.status)
      (λ u. record u {
        status = queued;
        status_detail = none;
        error_message = none;
        backoff_until = none;
        backoff_attempt = 0;
        last_quoted_cost = none;
        failed_at = none;
        processing_at = none;
        queued_at = now;
        payment_floor_txn_id = max_txn_id u.id s.transactions;
      })
      not_failed

unfoldable pub force_retry : Store → ℕ → Store × Option UploadError
force_retry s id =
    guarded s id (λ u. is_queued u.status && is_gas_backoff u.status_detail)
      (λ u. record u {
        status = queued;
        status_detail = none;
        backoff_until = none;
        processing_at = none;
      })
      not_in_backoff

-- A recoverable failure: the source is kept.
abbrev pub is_recoverable : Option Detail → Bool
is_recoverable (some paid_unfinalized) = true
is_recoverable (some payment_unconfirmed) = true
is_recoverable _ = false

abbrev pub active_path : Upload → List Bytes
active_path u = elim u.temp_path [
  | none ↦ []
  | some p ↦
      if not (is_empty p)
        && (is_queued u.status || is_processing u.status || is_recoverable u.status_detail)
      then p ∷ []
      else []
]

unfoldable pub list_active_temp_paths : List Upload → List Bytes
list_active_temp_paths [] = []
list_active_temp_paths (u ∷ us) = active_path u ++ list_active_temp_paths us
