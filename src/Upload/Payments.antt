-- ===== src/Upload/Payments.antt =====
-- internal/services/transaction.go: the ledger of payments, and the check that keeps an upload from
-- being paid for twice.
pub mod Sticky
pub mod Floor
use indelible.Common.{
  ℕ, suc, Bool, true, false, ◌&&◌, List, [], ◌∷◌, ◌++◌, Option, none, some, ◌==◌, ltb,
  if◌then◌else◌, find, any, Bytes,
}
use indelible.Upload.Marks.{is_empty}
use indelible.Upload.Row.{Upload, Transaction, Store}

-- `column = ?` on a nullable column.
abbrev pub eq_id : Option ℕ → ℕ → Bool
eq_id none id = false
eq_id (some k) id = k == id

abbrev pub new_txn : ℕ → ℕ → Option ℕ → Bytes → Bytes → Bytes → Bytes → Transaction
new_txn id wallet_id upload_id tx_type amount balance_after tx_hash = record {
  id = id;
  wallet_id = wallet_id;
  upload_id = upload_id;
  tx_type = tx_type;
  amount = amount;
  balance_after = balance_after;
  tx_hash = if is_empty tx_hash then none else some tx_hash;
}

-- The foreign keys of a transaction: its wallet and its upload, if any.
abbrev pub refers : Store → ℕ → Option ℕ → Bool
refers s wallet_id upload_id =
    any (λ w. w == wallet_id) s.wallet_ids
    && (elim upload_id [ none ↦ true | some i ↦ any (λ u. u.id == i) s.uploads ])

-- `Record`: nothing where a foreign key refuses the row, else with the row read back by `GetByID`.
unfoldable pub record_txn :
    Store → ℕ → Option ℕ → Bytes → Bytes → Bytes → Bytes → Store × Option Transaction
record_txn s wallet_id upload_id tx_type amount balance_after tx_hash =
    let id = suc s.txn_seq in
    let t = new_txn id wallet_id upload_id tx_type amount balance_after tx_hash in
    let s' = record s { transactions = s.transactions ++ t ∷ []; txn_seq = id } in
    if refers s wallet_id upload_id then (s', find (λ t. t.id == id) s'.transactions) else (s, none)

unfoldable pub has_by_upload : Store → ℕ → Bool
has_by_upload s upload_id = any (λ t. eq_id t.upload_id upload_id) s.transactions

-- The row `t JOIN u` passes the WHERE clause.
abbrev pub pays : ℕ → Transaction → Upload → Bool
pays upload_id t u =
    eq_id t.upload_id u.id && eq_id t.upload_id upload_id && ltb u.payment_floor_txn_id t.id

unfoldable pub has_payment_since_queued : Store → ℕ → Bool
has_payment_since_queued s upload_id = any (λ t. any (pays upload_id t) s.uploads) s.transactions
