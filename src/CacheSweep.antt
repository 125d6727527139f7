-- ===== src/CacheSweep.antt =====
-- internal/worker/cache_sweep.go: the worker that keeps the download cache within its budget and drops
-- what was deleted. It runs on the store of DownloadCache and the purge log of Upload. `fails` says of
-- which keys the unlink fails, `alive` before which rounds of a loop the context is not cancelled.
pub mod Loops
pub mod Budget
pub mod Inactive
pub mod Reconcile
pub mod Purges
pub mod Reads
pub mod Tail
mod Tests
use indelible.Common.{
  ℕ, zero, suc, ◌+◌, ◌-◌, ◌*◌, ◌/◌, Bool, true, false, not, ◌&&◌, ◌||◌, List, [], ◌∷◌, Option, none,
  some, ◌==◌, ltb, leb, if◌then◌else◌, length, take, keep, Bytes,
}
use indelible.Common.Joins.{is_empty}
use indelible.Token.{is_null}
use indelible.Upload.Row.{Visibility, public, private, PurgeLogEntry, Upload}
use indelible.Upload.Removal.{
  purge_log_since, prune_purge_log, max_purge_log_id, cache_key_visibility,
}
use indelible.DownloadCache.{World, Victim, oldest, drop, drop_gen}

-- What a batch did.
pub record Evicted : Type 0 where
  pub world : World
  pub count : ℕ
  pub freed : ℕ

abbrev pub nothing : World → Evicted
nothing w = record { world = w; count = 0; freed = 0 }

abbrev pub one_more : Victim → Evicted → Evicted
one_more v e = record { world = e.world; count = suc e.count; freed = v.size + e.freed }

-- `!cutoff.IsZero() && !v.LastAccess.Before(cutoff)`.
unfoldable pub is_fresh : Option ℕ → Victim → Bool
is_fresh none v = false
is_fresh (some cutoff) v = not (ltb v.last_access cutoff)

module _ (root : Bytes) (fails : Bytes → Bool) where
  -- The loop over victims, which `stop` breaks.
  unfoldable pub evict : (World → Victim → Bool) → World → List Victim → Evicted
  evict stop w [] = nothing w
  evict stop w (v ∷ vs) =
      let d = drop_gen root (fails v.key) w v.key v.gen in
      let rest = evict stop d.0 vs in
      if stop w v then nothing w else if d.1 then one_more v rest else rest

  unfoldable pub evict_batch : ℕ → Option ℕ → World → Evicted
  unfolding evict oldest
  evict_batch batch cutoff w = evict (λ _ v. is_fresh cutoff v) w (oldest w.store batch)

  unfoldable pub evict_batch_to_bytes : ℕ → ℕ → World → Evicted
  unfolding evict oldest
  evict_batch_to_bytes batch target w =
      evict (λ w' _. leb w'.store.bytes target) w (oldest w.store batch)

-- The loop of the three sweeps: a test, a batch, and an end where the batch takes nothing; none where
-- the fuel runs out.
unfoldable pub loop : (ℕ → World → Bool) → (World → Evicted) → ℕ → ℕ → World → Option World
loop stop batch zero k w = none
loop stop batch (suc fuel) k w =
    let b = batch w in
    let rest = loop stop batch fuel (k + 1) b.world in
    if stop k w then some w else if b.count == 0 then some b.world else rest

-- Volume usage at or above 90 percent, of a usage that is known.
unfoldable pub under_pressure : Option (ℕ × ℕ) → Bool
under_pressure none = false
under_pressure (some (total, used)) = not (total == 0) && leb (90 * total) (100 * used)

-- The budget less its headroom.
unfoldable pub budget_target : ℕ → ℕ → ℕ
budget_target budget max_object =
    let tenth = budget / 10 in
    let wanted = if ltb tenth max_object then max_object else tenth in
    let headroom = if ltb (budget / 2) wanted then budget / 2 else wanted in budget - headroom

-- A loop takes an entry in each round but its last.
abbrev pub rounds : World → ℕ
rounds w = suc (length w.store.entries)

module _ (root : Bytes) (fails : Bytes → Bool) (alive : ℕ → Bool) (batch : ℕ) where
  unfoldable pub sweep_disk_pressure : (ℕ → Option (ℕ × ℕ)) → World → Option World
  unfolding loop under_pressure evict_batch
  sweep_disk_pressure usage w =
      loop (λ k _. not (alive k) || not (under_pressure (usage k)))
        (evict_batch root fails batch none) (rounds w) 0 w

  unfoldable pub sweep_inactive : ℕ → World → Option World
  unfolding loop evict_batch
  sweep_inactive cutoff w =
      loop (λ k _. not (alive k)) (evict_batch root fails batch (some cutoff)) (rounds w) 0 w

  unfoldable pub sweep_budget : ℕ → ℕ → World → Option World
  unfolding loop budget_target evict_batch_to_bytes
  sweep_budget budget max_object w =
      let target = budget_target budget max_object in
      loop (λ k w'. not (alive k) || leb w'.store.bytes target)
        (evict_batch_to_bytes root fails batch target) (rounds w) 0 w

-- The part of the worker's state that the purges use.
pub record Sweeper : Type 0 where
  pub last_purge_id : ℕ
  pub last_reconcile : Option ℕ
  pub private_allowed : Bool

unfoldable pub is_kept : Bool → Option Visibility → Bool
is_kept private_allowed none = false
is_kept private_allowed (some public) = true
is_kept private_allowed (some private) = private_allowed

module _ (root : Bytes) (fails : Bytes → Bool) where
  -- The loop over the snapshot, with the number of unlinks that failed.
  unfoldable pub purge_orphans : List Upload → Bool → World → List Victim → World × ℕ
  unfolding is_kept cache_key_visibility
  purge_orphans us private_allowed w [] = (w, 0)
  purge_orphans us private_allowed w (v ∷ vs) =
      let d = drop root (fails v.key) w v.key in
      let kept = purge_orphans us private_allowed w vs in
      let rest = purge_orphans us private_allowed d.0 vs in
      if is_kept private_allowed (cache_key_visibility us v.key)
      then kept
      else if is_null d.1
      then rest
      else (rest.0, suc rest.1)

  -- The mark is that of the log before the snapshot; the Boolean is `clean`.
  unfoldable pub reconcile :
      Sweeper → List PurgeLogEntry → List Upload → Bool → World → Sweeper × World × Bool
  unfolding purge_orphans max_purge_log_id oldest
  reconcile st log us private_allowed w =
      let count = length w.store.entries in
      let st' = record st { last_purge_id = max_purge_log_id log } in
      let (w', stuck) = purge_orphans us private_allowed w (oldest w.store count) in
      if count == 0 then (st', w, true) else (st', w', stuck == 0)

  -- The loop over one read of the log: every key is dropped, and the mark goes up to the last entry
  -- before the first failure. The Boolean is `stalled`.
  unfoldable pub apply_purges : ℕ → Bool → World → List PurgeLogEntry → ℕ × Bool × World
  apply_purges mark stalled w [] = (mark, stalled, w)
  apply_purges mark stalled w (e ∷ es) =
      let d = drop root (fails e.cache_key) w e.cache_key in
      let failed = apply_purges mark true d.0 es in
      let past = apply_purges (if stalled then mark else e.id) stalled d.0 es in
      if is_null d.1 then past else failed

  -- The loop over reads of the log; none where the fuel runs out.
  unfoldable pub consume_tail : ℕ → ℕ → List PurgeLogEntry → ℕ → World → Option (ℕ × World)
  unfolding apply_purges
  consume_tail zero batch log mark w = none
  consume_tail (suc fuel) batch log mark w =
      let entries = take batch (keep (λ e. ltb mark e.id) log) in
      let (mark', stalled, w') = apply_purges mark false w entries in
      let rest = consume_tail fuel batch log mark' w' in
      if is_empty entries
      then some (mark, w)
      else if stalled || ltb (length entries) batch
      then some (mark', w')
      else rest

-- Whether a reconciliation is due: at boot, on a private-caching opt-out, or 12 hours after the last.
unfoldable pub is_due : Sweeper → Bool → ℕ → Bool
is_due st private_now now = elim st.last_reconcile [
  | none ↦ true
  | some t ↦ (st.private_allowed && not private_now) || leb 43200 (now - t)
]

abbrev pub purge_batch : ℕ
purge_batch = 500

-- propagatePurges, for one state of the tables; the log is pruned after it, by another function.
unfoldable pub propagate_purges :
    Bytes
    → (Bytes → Bool)
    → Sweeper
    → List PurgeLogEntry
    → List Upload
    → Bool
    → ℕ
    → World
    → Option (Sweeper × World)
unfolding is_due reconcile consume_tail
propagate_purges root fails st log us private_now now w =
    let (st1, w1, clean) = reconcile root fails st log us private_now w in
    let st2 = if clean then record st1 { last_reconcile = some now } else st1 in
    let due = is_due st private_now now in
    let st3 = if due then st2 else st in
    let w3 = if due then w1 else w in
    elim (consume_tail root fails (suc (length log)) purge_batch log st3.last_purge_id w3) [
      | none ↦ none
      | some (mark, w4) ↦
          some (record st3 { last_purge_id = mark; private_allowed = private_now }, w4)
    ]
