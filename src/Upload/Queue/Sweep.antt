-- ===== src/Upload/Queue/Sweep.antt =====
-- The stuck-upload sweep, and the temp files that the garbage collection must keep.
use indelible.Common.{
  ℕ, ◌-◌, ◌≤◌, ◌<◌, ◌≡◌, ◌≢◌, ◌⊎◌, ltb, Option, sym, ◌∙◌, refl, ap, Bool, true, false, List, [],
  ◌∷◌, none, some, ◌==◌, arith, any, Bool-cases, inl, inr, ◌&&◌, ◌||◌, elem, Bytes, bytes_eq,
  bytes_eq_refl, bytes_eq_iff, Option-cases, suc, any-append_left, any-append_right,
}
use indelible.Common.Sql.{update, affected}
use indelible.Upload.Row.{
  Upload, Status, Store, Detail, queued, processing, failed, is_processing, paid_unfinalized,
  payment_unconfirmed,
}
use indelible.Upload.Marks.{is_empty, mark_failed_preserve_temp}
use indelible.Upload.Queue.{
  is_stuck, before, requeue_stuck_except, is_recoverable, list_active_temp_paths, active_path,
}

abbrev requeued : Upload → Upload
requeued u = record u { status = queued; processing_at = none }

-- The rows of two tables correspond one to one; `n` of them were put back.
pub data SweptAll (now timeout : ℕ) (exclude : List ℕ)
    : List Upload → List Upload → ℕ → Type 0 where
  nil : SweptAll now timeout exclude [] [] 0
  same :
      {u : Upload} {us vs : List Upload} {n : ℕ}
      → (u.status ≢ processing)
        ⊎ ((u.processing_at ≡ none)
            ⊎ (((t : ℕ) × (u.processing_at ≡ some t) × (now - timeout ≤ t))
                ⊎ (elem u.id exclude ≡ true)))
      → SweptAll now timeout exclude us vs n
      → SweptAll now timeout exclude (u ∷ us) (u ∷ vs) n
  put_back :
      {u : Upload} {us vs : List Upload} {n : ℕ}
      → u.status ≡ processing
      → (t : ℕ) × (u.processing_at ≡ some t) × (t < now - timeout)
      → elem u.id exclude ≡ false
      → SweptAll now timeout exclude us vs n
      → SweptAll now timeout exclude
          (u ∷ us)
          (record u { status = queued; processing_at = none } ∷ vs)
          (suc n)

processing_of : (s : Status) → is_processing s ≡ true → s ≡ processing
processing_of processing h = refl
processing_of queued h = cc
processing_of _ h = cc

-- The two sides of the WHERE clause, for a row.
beat_before :
    (o : Option ℕ) (cutoff : ℕ) → before o cutoff ≡ true → (t : ℕ) × (o ≡ some t) × (t < cutoff)
beat_before none cutoff h = absurd (cc)
beat_before (some t) cutoff h = (t, refl, ground arith)

not_processing : (s : Status) → is_processing s ≡ false → s ≢ processing
not_processing s h e = let y : false ≡ true = sym h ∙ ap is_processing e in absurd (cc)

not_stuck :
    (now timeout : ℕ) (exclude : List ℕ) (u : Upload)
    → is_stuck now timeout exclude u ≡ false
    → (u.status ≢ processing)
      ⊎ ((u.processing_at ≡ none)
          ⊎ (((t : ℕ) × (u.processing_at ≡ some t) × (now - timeout ≤ t))
              ⊎ (elem u.id exclude ≡ true)))
not_stuck now timeout exclude u h = elim (Bool-cases (is_processing u.status)) [
  | inr p ↦ inl (not_processing u.status p)
  | inl p ↦ elim (Option-cases u.processing_at) [
    | inl n ↦ inr (inl n)
    | inr (t, n) ↦ elim (Bool-cases (ltb t (now - timeout))) [
      | inr l ↦ inr (inr (inl (t, n, ground arith)))
      | inl l ↦
          let b : before u.processing_at (now - timeout) ≡ true =
            ap (λ o. before o (now - timeout)) n ∙ l in
          inr (inr (inr (ground arith)))
    ]
  ]
]

sweep_rows :
    (now timeout : ℕ) (exclude : List ℕ) (us : List Upload)
    → SweptAll now timeout exclude us
        (update (is_stuck now timeout exclude) requeued us)
        (affected (is_stuck now timeout exclude) us)
unfolding update
sweep_rows now timeout exclude [] = nil
sweep_rows now timeout exclude (u ∷ us) = elim (Bool-cases (is_stuck now timeout exclude u)) [
  | inl e ↦ rw e (
      put_back (processing_of u.status (ground arith))
        (beat_before u.processing_at (now - timeout) (ground arith)) (ground arith)
        (sweep_rows now timeout exclude us))
  | inr e ↦ rw e (same (not_stuck now timeout exclude u e) (sweep_rows now timeout exclude us))
]

-- RequeueStuckExcept puts back exactly the uploads that are processing, whose last heartbeat is
-- before the window, and that the process does not list as its own; a row that it leaves is as it was,
-- and is not processing, has no heartbeat, has one within the window, or is on the list; and it returns
-- the number put back.
pub requeue_stuck_except-SweptAll :
    (s : Store) (now timeout : ℕ) (exclude : List ℕ)
    → SweptAll now timeout exclude s.uploads
        (requeue_stuck_except s now timeout exclude).0.uploads
        (requeue_stuck_except s now timeout exclude).1
unfolding requeue_stuck_except
requeue_stuck_except-SweptAll s now timeout exclude = sweep_rows now timeout exclude s.uploads

-- The row still has this temp file.
abbrev pub holds_path : Bytes → Upload → Bool
holds_path p u = elim u.temp_path [ none ↦ false | some q ↦ bytes_eq p q ]

-- What MarkFailedPreserveTemp makes of a row.
abbrev kept_failure : Bytes → Detail → ℕ → Upload → Upload
kept_failure msg detail now u = record u {
  status = failed;
  error_message = some msg;
  status_detail = some detail;
  failed_at = some now;
}

path_kept :
    (msg : Bytes) (detail : Detail) (now : ℕ) (p : Bytes) (u : Upload)
    → is_recoverable (some detail) ≡ true
    → is_empty p ≡ false
    → holds_path p u ≡ true
    → any (bytes_eq p) (active_path (kept_failure msg detail now u)) ≡ true
path_kept msg detail now p u r ne h = elim (Option-cases u.temp_path) [
  | inl e ↦ ground (arith, e)
  | inr (q, e) ↦
      let same : p ≡ q = (bytes_eq_iff p q).0 (rw e at h) in
      rw (e, ← same, ne, r) (ap (λ b. b || false) (bytes_eq_refl p))
]

paths_kept :
    (id now : ℕ) (msg : Bytes) (detail : Detail) (p : Bytes) (us : List Upload)
    → is_recoverable (some detail) ≡ true
    → is_empty p ≡ false
    → any (λ u. u.id == id && holds_path p u) us ≡ true
    → any
        (bytes_eq p)
        (list_active_temp_paths (update (λ u. u.id == id) (kept_failure msg detail now) us))
      ≡ true
unfolding update list_active_temp_paths
paths_kept id now msg detail p [] r ne h = cc
paths_kept id now msg detail p (u ∷ us) r ne h = elim (Bool-cases (u.id == id)) [
  | inl e ↦ elim (Bool-cases (holds_path p u)) [
    | inl f ↦ rw e (
        any-append_left (bytes_eq p) (active_path (kept_failure msg detail now u)) _
          (path_kept msg detail now p u r ne f))
    | inr f ↦ rw e (
        any-append_right (bytes_eq p) (active_path (kept_failure msg detail now u)) _
          (paths_kept id now msg detail p us r ne (ground arith)))
  ]
  | inr e ↦ rw e (
      any-append_right (bytes_eq p) (active_path u) _
        (paths_kept id now msg detail p us r ne (ground arith)))
]

recoverable :
    (detail : Detail)
    → (detail ≡ paid_unfinalized) ⊎ (detail ≡ payment_unconfirmed)
    → is_recoverable (some detail) ≡ true
recoverable detail (inl e) = ap (λ d. is_recoverable (some d)) e
recoverable detail (inr e) = ap (λ d. is_recoverable (some d)) e

-- A failure that is marked as paid but unfinalized, or as a payment without confirmation, keeps its
-- temp file out of the garbage collection: the path is among ListActiveTempPaths.
pub list_active_temp_paths-mark_failed_preserve_temp :
    (s : Store) (id now : ℕ) (msg : Bytes) (detail : Detail) (p : Bytes)
    → (detail ≡ paid_unfinalized) ⊎ (detail ≡ payment_unconfirmed)
    → is_empty p ≡ false
    → any (λ u. u.id == id && holds_path p u) s.uploads ≡ true
    → any
        (bytes_eq p)
        (list_active_temp_paths (mark_failed_preserve_temp s id msg detail now).uploads)
      ≡ true
unfolding mark_failed_preserve_temp
list_active_temp_paths-mark_failed_preserve_temp s id now msg detail p r ne h =
    paths_kept id now msg detail p s.uploads (recoverable detail r) ne h
