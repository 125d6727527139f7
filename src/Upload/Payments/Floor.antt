-- ===== src/Upload/Payments/Floor.antt =====
-- What the payment floor lets through: an operator's Retry forgets the payments so far, and a
-- payment recorded later counts again.
use indelible.Common.{
  ℕ, suc, ◌≤◌, ◌≡◌, ◌⊎◌, refl, ap, fun_ext, ◌∙◌, subst, Bool, true, false, List, [], ◌∷◌, none,
  some, ◌==◌, arith, any, All, Bytes, Bool-cases, inl, inr, ◌&&◌, ◌||◌, ltb, map, keep, Distinct,
  elem, any-append_right,
}
use indelible.Common.Sql.{update, affected}
use indelible.Upload.Row.{Upload, Transaction, Store, is_failed, queued}
use indelible.Upload.Queue.{retry, max_txn_id}
use indelible.Upload.Payments.{record_txn, new_txn, has_payment_since_queued, pays, eq_id}

no_later :
    (id m : ℕ) (ts : List Transaction)
    → max_txn_id id ts ≤ m
    → any (λ t. eq_id t.upload_id id && ltb m t.id) ts ≡ false
unfolding max_txn_id
no_later id m [] h = refl
no_later id m (t ∷ ts) h = ground (arith, no_later id m ts)

-- What Retry makes of a row of the upload.
abbrev retried : List Transaction → ℕ → Upload → Upload
retried ts now u = record u {
  status = queued;
  status_detail = none;
  error_message = none;
  backoff_until = none;
  backoff_attempt = 0;
  last_quoted_cost = none;
  failed_at = none;
  processing_at = none;
  queued_at = now;
  payment_floor_txn_id = max_txn_id u.id ts;
}

abbrev retries_row : ℕ → Upload → Bool
retries_row id u = u.id == id && is_failed u.status

absent_rows :
    (id now : ℕ) (ts : List Transaction) (t : Transaction) (us : List Upload)
    → elem id (map (λ u. u.id) us) ≡ false
    → (any (pays id t) (update (retries_row id) (retried ts now) us) ≡ false)
      × (keep (retries_row id) us ≡ [])
unfolding update
absent_rows id now ts t [] h = (refl, refl)
absent_rows id now ts t (u ∷ us) h = elim (Bool-cases (u.id == id)) [
  | inl e ↦ absurd (ground arith)
  | inr e ↦ let ih = absent_rows id now ts t us (ground arith) in rw e (ground (arith, ih.0), ih.1)
]

-- Among rows with distinct ids, a Retry that affects a row leaves in sight only the transactions
-- above the floor that it sets.
retried_rows :
    (id now : ℕ) (ts : List Transaction) (t : Transaction) (us : List Upload)
    → Distinct (map (λ u. u.id) us)
    → (affected (retries_row id) us == 0) ≡ false
    → any (pays id t) (update (retries_row id) (retried ts now) us)
      ≡ (eq_id t.upload_id id && ltb (max_txn_id id ts) t.id)
unfolding update
retried_rows id now ts t [] d a = cc
retried_rows id now ts t (u ∷ us) d a = elim (Bool-cases (u.id == id)) [
  | inl e ↦
      let same : u.id ≡ id = ground arith in
      let gone =
        absent_rows id now ts t us (subst (λ k. elem k (map (λ v. v.id) us) ≡ false) same d.0) in
      elim (Bool-cases (is_failed u.status)) [
        | inl f ↦ rw (e, f, gone.0, same) (ground arith)
        | inr f ↦ absurd (ground (arith, gone.1))
      ]
  | inr e ↦ rw e (ground (arith, retried_rows id now ts t us d.1))
]

any-false_of :
    {A : Type 0} (p q : A → Bool) (xs : List A)
    → ((x : A) → p x ≡ q x)
    → any q xs ≡ false
    → any p xs ≡ false
any-false_of p q xs same h = ap (λ f. any f xs) (fun_ext same) ∙ h

-- A Retry that succeeds authorises a new payment: where upload ids are distinct, no payment counts
-- for the upload right after it.
pub has_payment_since_queued-retry :
    (s : Store) (id now : ℕ)
    → Distinct (map (λ u. u.id) s.uploads)
    → (retry s id now).1 ≡ none
    → has_payment_since_queued (retry s id now).0 id ≡ false
unfolding retry has_payment_since_queued
has_payment_since_queued-retry s id now d h =
    elim (Bool-cases (affected (retries_row id) s.uploads == 0)) [
      | inl e ↦ absurd (ground arith)
      | inr e ↦ rw e (
          any-false_of _ (λ t. eq_id t.upload_id id && ltb (max_txn_id id s.transactions) t.id)
            s.transactions (λ t. retried_rows id now s.transactions t s.uploads d e)
            (no_later id (max_txn_id id s.transactions) s.transactions (omega arith)))
    ]

-- Every floor is at most the last transaction id.
abbrev pub FloorsBounded : Store → Type 0
FloorsBounded s = All (λ u. u.payment_floor_txn_id ≤ s.txn_seq) s.uploads

paid_row :
    (id n : ℕ) (t : Transaction) (us : List Upload)
    → t.upload_id ≡ some id
    → t.id ≡ suc n
    → All (λ u. u.payment_floor_txn_id ≤ n) us
    → any (λ u. u.id == id) us ≡ true
    → any (pays id t) us ≡ true
paid_row id n t [] e i f h = h
paid_row id n t (u ∷ us) e i f h = ground (arith, paid_row id n t us e i f.1)

-- Where every floor is at most the last transaction id, Record of a payment for an upload either finds
-- the wallet and the upload, and the payment is in sight at once, so that no automatic run pays again;
-- or it misses one of them, fails and changes nothing.
pub has_payment_since_queued-record_txn :
    (s : Store) (wallet id : ℕ) (ty amount balance hash : Bytes)
    → FloorsBounded s
    → (((any (λ w. w == wallet) s.wallet_ids && any (λ u. u.id == id) s.uploads) ≡ true)
        × (has_payment_since_queued (record_txn s wallet (some id) ty amount balance hash).0 id
            ≡ true))
      ⊎ (((any (λ w. w == wallet) s.wallet_ids && any (λ u. u.id == id) s.uploads) ≡ false)
          × (record_txn s wallet (some id) ty amount balance hash ≡ (s, none)))
unfolding record_txn has_payment_since_queued
has_payment_since_queued-record_txn s wallet id ty amount balance hash f =
    elim (Bool-cases (any (λ w. w == wallet) s.wallet_ids && any (λ u. u.id == id) s.uploads)) [
      | inr e ↦ inr (e, rw e refl)
      | inl e ↦ inl (
        e,
        rw e (
            any-append_right (λ t. any (pays id t) s.uploads) s.transactions _
              (ap (λ b. b || false)
                (paid_row id s.txn_seq
                  (new_txn (suc s.txn_seq) wallet (some id) ty amount balance hash) s.uploads refl
                  refl f (ground arith)))),
      )
    ]
