-- ===== src/Upload/Keys/Covered.antt =====
-- Every call on the store keeps the stored cache keys among those that a delete purges.
use indelible.Common.{
  ℕ, ◌≤◌, refl, sym, Distinct, Option, List, [], ◌∷◌, some, ◌==◌, Bool-cases, inl, inr, Bytes,
  subst,
}
use indelible.Common.Sql.{All-update}
use indelible.Upload.Row.{Upload, public, Store}
use indelible.Upload.Marks.{
  mark_completed, mark_completed_public, mark_already_stored, mark_already_stored_public,
  mark_published, mark_failed, mark_failed_preserve_temp,
}
use indelible.Upload.Queue.{
  set_gas_backoff, clear_backoff, requeue_stuck_except, touch_processing, cancel, retry,
  force_retry,
}
use indelible.Upload.Removal.{cache_keys}
use indelible.Upload.Payments.{record_txn, refers}
use indelible.Upload.Payments.Sticky.{
  Action, creates, completes, completes_public, stores, stores_public, publishes, fails,
  fails_keeping, dequeues, backs_off, clears, forces, sweeps, touches, cancels, retries, pays_for,
  backfills, step, run,
}
use indelible.Upload.Keys.{from_data_map, from_address}
use indelible.Upload.Keys.Ids.{ids-update}
use indelible.Upload.Keys.Rows.{
  AllCovered, set-AllCovered, stored, guarded-AllCovered, Publishable, publish-rows,
  create-AllCovered, dequeue-AllCovered,
}
use indelible.Upload.Keys.Backfill.{backfill-AllCovered}

module _ (sha256_hex : Bytes → Bytes) where
  pay-AllCovered :
      (s : Store) (w : ℕ) (u : Option ℕ) (ty x b h : Bytes)
      → AllCovered sha256_hex s
      → AllCovered sha256_hex (record_txn s w u ty x b h).0
  unfolding record_txn
  pay-AllCovered s w u ty x b h a = elim (Bool-cases (refers s w u)) [
    | inl e ↦ rw e (record { rows = a.rows; distinct = a.distinct; bounded = a.bounded })
    | inr e ↦ rw e a
  ]

  step-AllCovered :
      (s : Store) (a : Action)
      → Publishable sha256_hex s a
      → AllCovered sha256_hex s
      → AllCovered sha256_hex (step sha256_hex s a)
  unfolding step mark_completed mark_completed_public mark_already_stored mark_already_stored_public
      mark_published mark_failed mark_failed_preserve_temp set_gas_backoff clear_backoff force_retry
      requeue_stuck_except touch_processing cancel retry cache_keys record_txn
  step-AllCovered s (creates n now) p a = create-AllCovered sha256_hex s n now a
  step-AllCovered s (completes i d c now) p a =
      set-AllCovered sha256_hex s _ _ a (λ u. refl)
        λ u _ _. stored sha256_hex d _ (from_data_map sha256_hex d u.datamap_address)
  step-AllCovered s (completes_public i d c now) p a =
      set-AllCovered sha256_hex s _ _ a (λ u. refl)
        λ u _ _. stored sha256_hex d _ (from_address sha256_hex d _)
  step-AllCovered s (stores i d c now) p a =
      set-AllCovered sha256_hex s _ _ a (λ u. refl)
        λ u _ _. stored sha256_hex d _ (from_data_map sha256_hex d u.datamap_address)
  step-AllCovered s (stores_public i d c now) p a =
      set-AllCovered sha256_hex s _ _ a (λ u. refl)
        λ u _ _. stored sha256_hex d _ (from_address sha256_hex d _)
  step-AllCovered s (publishes i d) p a =
      let f : Upload → Upload = λ u. record u { visibility = public; datamap_address = some d } in
      record {
        rows = publish-rows sha256_hex i d s.uploads p a.rows;
        distinct =
            subst Distinct (sym (ids-update (λ u. u.id == i) f s.uploads (λ u. refl))) a.distinct;
        bounded =
            All-update (λ u. u.id ≤ s.upload_seq) (λ u. u.id == i) f s.uploads a.bounded
              (λ u e l. l);
      }
  step-AllCovered s (fails i msg now) p a = set-AllCovered sha256_hex s _ _ a (λ u. refl) λ u _ c. c
  step-AllCovered s (fails_keeping i msg detail now) p a =
      set-AllCovered sha256_hex s _ _ a (λ u. refl) λ u _ c. c
  step-AllCovered s (dequeues now) p a = dequeue-AllCovered sha256_hex s now a
  step-AllCovered s (backs_off i until attempt cost) p a =
      set-AllCovered sha256_hex s _ _ a (λ u. refl) λ u _ c. c
  step-AllCovered s (clears i) p a = set-AllCovered sha256_hex s _ _ a (λ u. refl) λ u _ c. c
  step-AllCovered s (forces i) p a = guarded-AllCovered sha256_hex s i _ _ _ a (λ u. refl) λ u c. c
  step-AllCovered s (sweeps now timeout exclude) p a =
      set-AllCovered sha256_hex s _ _ a (λ u. refl) λ u _ c. c
  step-AllCovered s (touches i now) p a = set-AllCovered sha256_hex s _ _ a (λ u. refl) λ u _ c. c
  step-AllCovered s (cancels i now) p a =
      guarded-AllCovered sha256_hex s i _ _ _ a (λ u. refl) λ u c. c
  step-AllCovered s (retries i now) p a =
      guarded-AllCovered sha256_hex s i _ _ _ a (λ u. refl) λ u c. c
  step-AllCovered s backfills p a = backfill-AllCovered sha256_hex s a
  step-AllCovered s (pays_for w u ty x b h) p a = pay-AllCovered s w u ty x b h a

  -- MarkPublished is only called where it may be, at each point of a run.
  abbrev pub PublishableRun : Store → List Action → Type 0
  PublishableRun s [] = Unit
  PublishableRun s (a ∷ calls) =
      Publishable sha256_hex s a × PublishableRun (step sha256_hex s a) calls

  -- Any sequence of calls other than Delete, BackfillCacheKeys among them, in which MarkPublished only
  -- meets rows with no network address, keeps every stored sha256_hex cache key null, empty, or among the keys that Delete would log for
  -- its row: no purge misses the key under which the row is reconciled.
  pub run-AllCovered :
      (s : Store) (calls : List Action)
      → PublishableRun s calls
      → AllCovered sha256_hex s
      → AllCovered sha256_hex (run sha256_hex s calls)
  unfolding run
  run-AllCovered s [] p a = a
  run-AllCovered s (c ∷ calls) p a =
      run-AllCovered (step sha256_hex s c) calls p.1 (step-AllCovered s c p.0 a)
