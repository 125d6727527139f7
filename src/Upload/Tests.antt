-- ===== src/Upload/Tests.antt =====
-- A store with three uploads: 1 is queued, 2 is being processed, 3 has failed after a payment.
use indelible.Common.{
  ◌≡◌, ◌≢◌, ◌⊎◌, ◌&&◌, ◌==◌, inr, false, refl, true, false, List, [], ◌∷◌, some, none, arith, any,
  map, take, text, Bytes, ok, bytes_eq,
}
use indelible.Common.Sql.{update}
use indelible.Upload.Row.{
  Upload, Transaction, Store, NewUpload, private, processing, failed, paid_unfinalized,
  payment_unconfirmed, constraint_error, fresh,
}
use indelible.Upload.Marks.{
  mark_failed_preserve_temp, mark_completed, backfill_cache_keys, unstamped, stamp, identifier_of,
}
use indelible.Upload.Queue.{
  dequeue_next, requeue_stuck_except, retry, list_active_temp_paths, claim,
}
use indelible.Upload.Queue.Claim.{dequeue_next-Dequeues, dequeue_next_twice, Dequeues, claimed}
use indelible.Upload.Queue.Sweep.{
  SweptAll, requeue_stuck_except-SweptAll, list_active_temp_paths-mark_failed_preserve_temp,
}
use indelible.Upload.Payments.{record_txn, has_payment_since_queued}
use indelible.Upload.Payments.Sticky.{
  Action, sweeps, dequeues, cancels, backs_off, backfills, completes, publishes, step, run,
  has_payment_since_queued-run,
}
use indelible.Upload.Payments.Floor.{
  has_payment_since_queued-retry, has_payment_since_queued-record_txn,
}
use indelible.Upload.Removal.{delete_upload, delete_tx, purge_log_since, cache_keys}
use indelible.Upload.Removal.Delete.{Deletes, delete_upload-Deletes, purge_log_since-delete_upload}
use indelible.Upload.Keys.Rows.{AllCovered}
use indelible.Upload.Keys.Covered.{run-AllCovered}

-- A digest for the tests: the text itself.
abbrev digest : Bytes → Bytes
digest x = x

abbrev blank : NewUpload
blank = record {
  uuid = text "u";
  user_id = 5;
  token_id = none;
  filename = text "f";
  original_filename = text "f";
  file_size = 10;
  content_type = [];
  visibility = private;
  temp_path = text "/tmp/f";
  estimated_cost = none;
}

abbrev waiting : Upload
waiting = fresh blank 1 100

abbrev working : Upload
working = record (fresh blank 2 90) { status = processing; processing_at = some 95 }

abbrev broken : Upload
broken = record (fresh blank 3 80) {
  status = failed;
  status_detail = some paid_unfinalized;
  data_map = some (text "m");
}

abbrev payment : Transaction
payment = record {
  id = 1;
  wallet_id = 1;
  upload_id = some 3;
  tx_type = text "upload";
  amount = text "7";
  balance_after = text "93";
  tx_hash = none;
}

abbrev shop : Store
shop = record {
  uploads = waiting ∷ working ∷ broken ∷ [];
  upload_seq = 3;
  transactions = payment ∷ [];
  txn_seq = 1;
  file_tags = record { upload_id = 3; tag_key = text "k"; tag_value = text "v" } ∷ [];
  collection_files = [];
  cache_purge_log = [];
  purge_seq = 0;
  wallet_ids = 1 ∷ [];
}

dequeue_next-Dequeues_example : Dequeues shop 200 (dequeue_next shop 200)
dequeue_next-Dequeues_example = dequeue_next-Dequeues shop 200 (refl, (refl, (refl, tt)))

-- The store after upload 1 was claimed at 200, with upload 4 queued.
abbrev shop_two : Store
shop_two = record shop { uploads = waiting ∷ fresh blank 4 150 ∷ [] }

claim_first : dequeue_next shop_two 200 ≡ (claim 200 1 shop_two, ok (some (claimed 200 waiting)))
unfolding dequeue_next update
claim_first = refl

claim_second :
    dequeue_next (claim 200 1 shop_two) 201
    ≡ (claim 201 4 (claim 200 1 shop_two), ok (some (claimed 201 (fresh blank 4 150))))
unfolding dequeue_next update
claim_second = refl

dequeue_next_twice_example : (claimed 200 waiting).id ≢ (claimed 201 (fresh blank 4 150)).id
dequeue_next_twice_example =
    dequeue_next_twice shop_two _ _ 200 201 (claimed 200 waiting) (claimed 201 (fresh blank 4 150))
      (refl, (refl, tt)) claim_first claim_second

requeue_stuck_except-SweptAll_example :
    SweptAll 300 60
      (2 ∷ [])
      shop.uploads
      (requeue_stuck_except shop 300 60 (2 ∷ [])).0.uploads
      (requeue_stuck_except shop 300 60 (2 ∷ [])).1
requeue_stuck_except-SweptAll_example = requeue_stuck_except-SweptAll shop 300 60 (2 ∷ [])

swept_one : (requeue_stuck_except shop 300 60 []).1 ≡ 1
unfolding requeue_stuck_except
swept_one = refl

spared : (requeue_stuck_except shop 300 60 (2 ∷ [])).1 ≡ 0
unfolding requeue_stuck_except
spared = refl

list_active_temp_paths-mark_failed_preserve_temp_example :
    any (bytes_eq (text "/tmp/f")) (
      list_active_temp_paths
        (mark_failed_preserve_temp shop 2 (text "e") payment_unconfirmed 300).uploads)
    ≡ true
unfolding bytes_eq
list_active_temp_paths-mark_failed_preserve_temp_example =
    list_active_temp_paths-mark_failed_preserve_temp shop 2 300 (text "e") payment_unconfirmed
      (text "/tmp/f") (inr refl) refl refl

abbrev bad_day : List Action
bad_day =
    sweeps 300 60 []
    ∷ dequeues 301
    ∷ backs_off 3 400 1 (text "9")
    ∷ cancels 3 310
    ∷ dequeues 320
    ∷ []

has_payment_since_queued-run_example : has_payment_since_queued (run digest shop bad_day) 3 ≡ true
unfolding has_payment_since_queued
has_payment_since_queued-run_example = has_payment_since_queued-run digest shop 3 bad_day refl refl

has_payment_since_queued-retry_example : has_payment_since_queued (retry shop 3 400).0 3 ≡ false
unfolding retry
has_payment_since_queued-retry_example =
    has_payment_since_queued-retry shop 3 400 (refl, (refl, (refl, tt))) refl

has_payment_since_queued-record_txn_example :
    (((any (λ w. w == 1) shop.wallet_ids && any (λ u. u.id == 2) shop.uploads) ≡ true)
      × (has_payment_since_queued (record_txn shop 1 (some 2) [] [] [] []).0 2 ≡ true))
    ⊎ (((any (λ w. w == 1) shop.wallet_ids && any (λ u. u.id == 2) shop.uploads) ≡ false)
        × (record_txn shop 1 (some 2) [] [] [] [] ≡ (shop, none)))
has_payment_since_queued-record_txn_example =
    has_payment_since_queued-record_txn shop 1 2 [] [] [] [] (omega arith)

-- A payment from an unknown wallet is not recorded.
unknown_wallet : record_txn shop 8 (some 2) [] [] [] [] ≡ (shop, none)
unfolding record_txn
unknown_wallet = refl

-- The store before the payment for upload 3.
abbrev unpaid : Store
unpaid = record shop { transactions = []; txn_seq = 0 }

-- The upload that was paid for is not deleted.
kept : (delete_upload digest shop 3 500).1 ≡ some constraint_error
unfolding delete_upload
kept = refl

delete_upload-Deletes_example : Deletes digest unpaid 3 500 (delete_upload digest unpaid 3 500)
delete_upload-Deletes_example = delete_upload-Deletes digest unpaid 3 500

deleted : delete_upload digest unpaid 3 500 ≡ (delete_tx digest unpaid broken 3 500, none)
unfolding delete_upload
deleted = refl

purge_log_since-delete_upload_example :
    map (λ e. e.cache_key) (purge_log_since (delete_tx digest unpaid broken 3 500) 0 10)
    ≡ take 10 (cache_keys digest broken)
purge_log_since-delete_upload_example =
    purge_log_since-delete_upload digest unpaid _ 3 500 0 10 broken tt (omega arith) refl deleted

abbrev empty_store : Store
empty_store = record shop { uploads = broken ∷ [] }

abbrev late_publish : List Action
late_publish = backfills ∷ completes 3 (text "m") [] 7 ∷ publishes 3 (text "a") ∷ []

run-AllCovered_example : AllCovered digest (run digest empty_store late_publish)
unfolding step mark_completed backfill_cache_keys unstamped stamp identifier_of update
run-AllCovered_example =
    run-AllCovered digest empty_store late_publish (tt, (tt, (((λ _. refl), tt), tt)))
      (record { rows = ((λ k q. cc), tt); distinct = (refl, tt); bounded = (omega arith, tt) })
