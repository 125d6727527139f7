-- ===== src/Upload/Payments/Sticky.antt =====
-- What the process does to an upload by itself never hides a payment.
use indelible.Common.{
  ℕ, ◌≡◌, refl, ap, fun_ext, ◌∙◌, Bool, true, false, List, [], ◌∷◌, Option, some, ◌==◌, arith, any,
  Bytes, bytes_eq, ltb, any-append_left, Bool-cases, Option-cases, inl, inr, ◌&&◌, keep,
}
use indelible.Common.Sql.{update, affected, any-update}
use indelible.Upload.Row.{
  Upload, Transaction, Detail, NewUpload, Store, UploadError, create, is_failed, set_row,
}
use indelible.Upload.Marks.{
  mark_completed, mark_completed_public, mark_already_stored, mark_already_stored_public,
  mark_published, mark_failed, mark_failed_preserve_temp, unstamped, stamp, backfill_cache_keys,
}
use indelible.Upload.Queue.{
  dequeue_next, set_gas_backoff, clear_backoff, requeue_stuck_except, touch_processing, cancel,
  retry, force_retry, guarded, oldest, eligible,
}
use indelible.Upload.Payments.{record_txn, refers, has_payment_since_queued, pays, eq_id}

-- The calls on the store, other than Delete.
pub data Action : Type 0 where
  creates : NewUpload → ℕ → Action
  completes completes_public stores stores_public : ℕ → Bytes → Bytes → ℕ → Action
  publishes : ℕ → Bytes → Action
  fails : ℕ → Bytes → ℕ → Action
  fails_keeping : ℕ → Bytes → Detail → ℕ → Action
  dequeues : ℕ → Action
  backs_off : ℕ → ℕ → ℕ → Bytes → Action
  clears forces : ℕ → Action
  sweeps : ℕ → ℕ → List ℕ → Action
  touches cancels retries : ℕ → ℕ → Action
  backfills : Action
  pays_for : ℕ → Option ℕ → Bytes → Bytes → Bytes → Bytes → Action

module _ (sha256_hex : Bytes → Bytes) where
  unfoldable pub step : Store → Action → Store
  step s (creates n now) = (create s n now).0
  step s (completes id d c now) = mark_completed sha256_hex s id d c now
  step s (completes_public id d c now) = mark_completed_public sha256_hex s id d c now
  step s (stores id d c now) = mark_already_stored sha256_hex s id d c now
  step s (stores_public id d c now) = mark_already_stored_public sha256_hex s id d c now
  step s (publishes id d) = mark_published s id d
  step s (fails id msg now) = mark_failed s id msg now
  step s (fails_keeping id msg detail now) = mark_failed_preserve_temp s id msg detail now
  step s (dequeues now) = (dequeue_next s now).0
  step s (backs_off id until attempt cost) = set_gas_backoff s id until attempt cost
  step s (clears id) = clear_backoff s id
  step s (forces id) = (force_retry s id).0
  step s (sweeps now timeout exclude) = (requeue_stuck_except s now timeout exclude).0
  step s (touches id now) = touch_processing s id now
  step s (cancels id now) = (cancel s id now).0
  step s (retries id now) = (retry s id now).0
  step s backfills = (backfill_cache_keys sha256_hex s).0
  step s (pays_for w u ty a b h) = (record_txn s w u ty a b h).0

  unfoldable pub run : Store → List Action → Store
  run s [] = s
  run s (a ∷ rest) = run (step s a) rest

-- Whether a call is the operator's Retry of this upload.
abbrev pub is_retry_of : ℕ → Action → Bool
is_retry_of id (retries i now) = i == id
is_retry_of id _ = false

-- A change of rows that keeps their id and payment floor keeps every payment in sight.
kept-update :
    (id : ℕ) (q : Upload → Bool) (f : Upload → Upload) (us : List Upload) (ts : List Transaction)
    → ((t : Transaction) (u : Upload) → q u ≡ true → pays id t (f u) ≡ pays id t u)
    → any (λ t. any (pays id t) (update q f us)) ts ≡ any (λ t. any (pays id t) us) ts
kept-update id q f us ts h = ap (λ p. any p ts) (fun_ext λ t. any-update q f (pays id t) us (h t))

set_row-keeps :
    (s : Store) (id : ℕ) (q : Upload → Bool) (f : Upload → Upload)
    → ((t : Transaction) (u : Upload) → q u ≡ true → pays id t (f u) ≡ pays id t u)
    → has_payment_since_queued s id ≡ true
    → has_payment_since_queued (record s { uploads = update q f s.uploads }) id ≡ true
unfolding has_payment_since_queued
set_row-keeps s id q f same h = kept-update id q f s.uploads s.transactions same ∙ h

stamp-keeps :
    (todo : List (ℕ × Bytes)) (s : Store) (id : ℕ)
    → has_payment_since_queued s id ≡ true
    → has_payment_since_queued (stamp todo s) id ≡ true
unfolding stamp
stamp-keeps [] s id h = h
stamp-keeps ((i, key) ∷ todo) s id h =
    stamp-keeps todo (set_row i (λ u. record u { cache_key = some key }) s) id
      (set_row-keeps s id _ _ (λ t u q. refl) h)

guarded-keeps :
    (s : Store) (id i : ℕ) (p : Upload → Bool) (f : Upload → Upload) (e : UploadError)
    → ((t : Transaction) (u : Upload) → (u.id == i && p u) ≡ true → pays id t (f u) ≡ pays id t u)
    → has_payment_since_queued s id ≡ true
    → has_payment_since_queued (guarded s i p f e).0 id ≡ true
guarded-keeps s id i p f e same h =
    elim (Bool-cases (affected (λ u. u.id == i && p u) s.uploads == 0)) [
      | inl z ↦ rw z h
      | inr z ↦ rw z (set_row-keeps s id (λ u. u.id == i && p u) f same h)
    ]

dequeue-keeps :
    (s : Store) (id now : ℕ)
    → has_payment_since_queued s id ≡ true
    → has_payment_since_queued (dequeue_next s now).0 id ≡ true
unfolding dequeue_next
dequeue-keeps s id now h = elim (Option-cases (oldest (keep (eligible now) s.uploads))) [
  | inl e ↦ rw (e, dequeue_next) h
  | inr (u, e) ↦ rw (e, dequeue_next) (set_row-keeps s id _ _ (λ t v q. refl) h)
]

any_mono :
    {A : Type 0} (p q : A → Bool) (xs : List A)
    → ((x : A) → p x ≡ true → q x ≡ true)
    → any p xs ≡ true
    → any q xs ≡ true
any_mono p q [] h e = e
any_mono p q (x ∷ xs) h e = elim (Bool-cases (p x)) [
  | inl y ↦ rw (h x y) refl
  | inr n ↦ ground (arith, any_mono p q xs h)
]

create-keeps :
    (s : Store) (id : ℕ) (n : NewUpload) (now : ℕ)
    → has_payment_since_queued s id ≡ true
    → has_payment_since_queued (create s n now).0 id ≡ true
unfolding create has_payment_since_queued
create-keeps s id n now h = elim (Bool-cases (any (λ u. bytes_eq u.uuid n.uuid) s.uploads)) [
  | inl e ↦ rw e h
  | inr e ↦ rw e (any_mono _ _ s.transactions (λ t y. any-append_left (pays id t) s.uploads _ y) h)
]

record_txn-keeps :
    (s : Store) (id w : ℕ) (u : Option ℕ) (ty a b h : Bytes)
    → has_payment_since_queued s id ≡ true
    → has_payment_since_queued (record_txn s w u ty a b h).0 id ≡ true
unfolding record_txn has_payment_since_queued
record_txn-keeps s id w u ty a b h e = elim (Bool-cases (refers s w u)) [
  | inl x ↦ rw x (any-append_left (λ t. any (pays id t) s.uploads) s.transactions _ e)
  | inr x ↦ rw x e
]

-- A Retry of another upload changes only the floor of that upload's row.
other_retry :
    (id i k : ℕ) (t : Transaction) (u : Upload)
    → (i == id) ≡ false
    → (u.id == i && is_failed u.status) ≡ true
    → (eq_id t.upload_id u.id && eq_id t.upload_id id && ltb k t.id) ≡ pays id t u
other_retry id i k t u ne q = ground arith

module _ (sha256_hex : Bytes → Bytes) where
  step-keeps :
      (s : Store) (id : ℕ) (a : Action)
      → is_retry_of id a ≡ false
      → has_payment_since_queued s id ≡ true
      → has_payment_since_queued (step sha256_hex s a) id ≡ true
  unfolding step backfill_cache_keys mark_completed mark_completed_public mark_already_stored
      mark_already_stored_public mark_published mark_failed mark_failed_preserve_temp
      set_gas_backoff clear_backoff force_retry requeue_stuck_except touch_processing cancel retry
  step-keeps s id (creates n now) r h = create-keeps s id n now h
  step-keeps s id (completes i d c now) r h = set_row-keeps s id _ _ (λ t u q. refl) h
  step-keeps s id (completes_public i d c now) r h = set_row-keeps s id _ _ (λ t u q. refl) h
  step-keeps s id (stores i d c now) r h = set_row-keeps s id _ _ (λ t u q. refl) h
  step-keeps s id (stores_public i d c now) r h = set_row-keeps s id _ _ (λ t u q. refl) h
  step-keeps s id (publishes i d) r h = set_row-keeps s id _ _ (λ t u q. refl) h
  step-keeps s id (fails i msg now) r h = set_row-keeps s id _ _ (λ t u q. refl) h
  step-keeps s id (fails_keeping i msg detail now) r h = set_row-keeps s id _ _ (λ t u q. refl) h
  step-keeps s id (dequeues now) r h = dequeue-keeps s id now h
  step-keeps s id (backs_off i until attempt cost) r h = set_row-keeps s id _ _ (λ t u q. refl) h
  step-keeps s id (clears i) r h = set_row-keeps s id _ _ (λ t u q. refl) h
  step-keeps s id (forces i) r h = guarded-keeps s id i _ _ _ (λ t u q. refl) h
  step-keeps s id (sweeps now timeout exclude) r h = set_row-keeps s id _ _ (λ t u q. refl) h
  step-keeps s id (touches i now) r h = set_row-keeps s id _ _ (λ t u q. refl) h
  step-keeps s id (cancels i now) r h = guarded-keeps s id i _ _ _ (λ t u q. refl) h
  step-keeps s id (retries i now) r h =
      guarded-keeps s id i _ _ _ (λ t u q. other_retry id i _ t u r q) h
  step-keeps s id backfills r h = stamp-keeps (unstamped sha256_hex s.uploads) s id h
  step-keeps s id (pays_for w u ty a b x) r h = record_txn-keeps s id w u ty a b x h

  -- Once a payment is on record for an upload, HasPaymentSinceQueued stays true for it through any
  -- sequence of calls other than Delete in which no call is the operator's Retry of that upload:
  -- sweeps, startup requeues, gas backoff, cancels and failures never make it false.
  pub has_payment_since_queued-run :
      (s : Store) (id : ℕ) (calls : List Action)
      → any (is_retry_of id) calls ≡ false
      → has_payment_since_queued s id ≡ true
      → has_payment_since_queued (run sha256_hex s calls) id ≡ true
  unfolding run
  has_payment_since_queued-run s id [] r h = h
  has_payment_since_queued-run s id (a ∷ calls) r h =
      has_payment_since_queued-run (step sha256_hex s a) id calls (ground arith)
        (step-keeps s id a (ground arith) h)
