-- ===== src/CacheSweep/Tests.antt =====
-- A cache of two entries, of 5 and 7 bytes, the first read earlier; only the second has a live row.
use indelible.Common.{
  ◌≤◌, ◌≡◌, suc, length, refl, true, false, List, [], ◌∷◌, none, some, arith, All, Bytes, bytes_eq,
  text,
}
use indelible.Upload.Row.{Upload, NewUpload, PurgeLogEntry, fresh, public}
use indelible.Upload.Removal.{cache_key_visibility}
use indelible.DownloadCache.{
  World, oldest, by_age, insert_victim, drop, unlink_locked, delete_entry, path_of, key_valid,
  remove,
}
use indelible.DownloadCache.Accounting.{Accounted, UniqueKeys}
use indelible.CacheSweep.{
  consume_tail, Sweeper, reconcile, purge_orphans, apply_purges, is_kept, sweep_budget,
  sweep_inactive, budget_target,
}
use indelible.CacheSweep.Budget.{sweep_budget-le}
use indelible.CacheSweep.Inactive.{AllFresh, sweep_inactive-AllFresh}
use indelible.CacheSweep.Reconcile.{AllKept, reconcile-AllKept}
use indelible.CacheSweep.Tail.{Consumed, consume_tail-Consumed}
use indelible.CacheSweep.Purges.{Applied, apply_purges-Applied}

abbrev cold : Bytes
cold = text "0123456789abcde0"

abbrev warm : Bytes
warm = text "0123456789abcde1"

abbrev cache : World
cache = record {
  store = record {
    entries =
        record { key = cold; size = 5; last_access = 3; gen = 1 }
        ∷ record { key = warm; size = 7; last_access = 9; gen = 2 }
        ∷ [];
    bytes = 12;
    ready = true;
    gen_seq = 2;
  };
  disk = [];
}

cache-Accounted : Accounted cache.store
unfolding UniqueKeys bytes_eq
cache-Accounted = record {
  exact = omega arith;
  unique = (refl, (refl, tt));
  bounded = (omega arith, (omega arith, tt));
}

sweep_budget-le_example :
    (w' : World) × (sweep_budget (text "c") (λ _. false) (λ _. true) 100 10 1 cache ≡ some w')
    × Accounted w'.store
    × (w'.store.bytes ≤ budget_target 10 1)
sweep_budget-le_example = sweep_budget-le (text "c") 99 10 1 cache cache-Accounted

sweep_inactive-AllFresh_example :
    (w' : World) × (sweep_inactive (text "c") (λ _. false) (λ _. true) 100 6 cache ≡ some w')
    × Accounted w'.store
    × AllFresh 6 w'
sweep_inactive-AllFresh_example = sweep_inactive-AllFresh (text "c") 99 6 cache cache-Accounted

abbrev shared : NewUpload
shared = record {
  uuid = text "u";
  user_id = 5;
  token_id = none;
  filename = text "f";
  original_filename = text "f";
  file_size = 7;
  content_type = [];
  visibility = public;
  temp_path = text "/tmp/f";
  estimated_cost = none;
}

abbrev rows : List Upload
rows = record (fresh shared 1 0) { cache_key = some warm } ∷ []

abbrev sweeper : Sweeper
sweeper = record { last_purge_id = 0; last_reconcile = none; private_allowed = false }

abbrev log : List PurgeLogEntry
log = record { id = 4; cache_key = cold; deleted_at = 2 } ∷ []

clean : (reconcile (text "c") (λ _. false) sweeper log rows false cache).2 ≡ true
unfolding reconcile purge_orphans oldest by_age insert_victim is_kept cache_key_visibility bytes_eq
    drop unlink_locked delete_entry key_valid remove path_of
clean = refl

reconcile-AllKept_example :
    AllKept rows false (reconcile (text "c") (λ _. false) sweeper log rows false cache).1
reconcile-AllKept_example =
    reconcile-AllKept (text "c") (λ _. false) sweeper log rows false cache clean

apply_purges-Applied_example :
    All
      (Applied
        (apply_purges (text "c") (λ _. false) 0 false cache log).0
        (apply_purges (text "c") (λ _. false) 0 false cache log).2)
      log
apply_purges-Applied_example =
    apply_purges-Applied (text "c") (λ _. false) 0 cache log (omega arith, tt)

-- Two entries, read one at a time.
abbrev two_deletes : List PurgeLogEntry
two_deletes =
    record { id = 4; cache_key = cold; deleted_at = 2 }
    ∷ record { id = 6; cache_key = warm; deleted_at = 3 }
    ∷ []

consume_tail-Consumed_example :
    Consumed two_deletes 0 cache
      (consume_tail (text "c") (bytes_eq warm) (suc (length two_deletes)) 1 two_deletes 0 cache)
consume_tail-Consumed_example =
    consume_tail-Consumed (text "c") (bytes_eq warm) 0 two_deletes 0 0 cache
      (omega arith, (omega arith, tt))
