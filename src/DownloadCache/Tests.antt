-- ===== src/DownloadCache/Tests.antt =====
-- A cache at the root "c" with one entry, promoted from a temp file of 5 bytes.
use indelible.Common.{ℕ, ◌≡◌, refl, true, false, List, [], ◌∷◌, arith, Bytes, bytes_eq, text}
use indelible.Common.Sql.{update}
use indelible.DownloadCache.{
  File, World, new_store, get, promote_if_fits, drop, drop_gen, path_of, key_valid,
}
use indelible.DownloadCache.Steps.{Step, gets, refreshes, promotes, scan_ends, step, run}
use indelible.DownloadCache.Accounting.{Accounted, UniqueKeys, run-Accounted}
use indelible.DownloadCache.Budget.{Promotes, promote_if_fits-Promotes}
use indelible.DownloadCache.Generations.{holds, drop_gen-run}
use indelible.DownloadCache.Purge.{Purges, drop-Purges}

abbrev key : Bytes
key = text "0123456789abcdef"

abbrev temp : File
temp = record { path = text "t"; size = 5; regular = true }

abbrev boot : World
boot = record { store = new_store; disk = temp ∷ [] }

abbrev warm_steps : List Step
warm_steps =
    scan_ends ∷ promotes key (text "t") 10 7 false ∷ gets key 7 false ∷ refreshes key 8 ∷ []

abbrev cached : World
cached = record {
  store = record {
    entries = record { key = key; size = 5; last_access = 8; gen = 1 } ∷ [];
    bytes = 5;
    ready = true;
    gen_seq = 1;
  };
  disk = record temp { path = path_of (text "c") key } ∷ [];
}

new_store-Accounted : Accounted new_store
unfolding UniqueKeys
new_store-Accounted = record { exact = omega arith; unique = tt; bounded = tt }

run-Accounted_example : Accounted (run (text "c") boot warm_steps).store
run-Accounted_example = run-Accounted (text "c") boot warm_steps new_store-Accounted

promote_if_fits-Promotes_example :
    Promotes
      (text "c")
      boot
      (promote_if_fits (text "c") false boot key (text "t") 10 7).0
      key
      (text "t")
      10
      (promote_if_fits (text "c") false boot key (text "t") 10 7).1
promote_if_fits-Promotes_example =
    promote_if_fits-Promotes (text "c") false boot key (text "t") 10 7 new_store-Accounted

took : (drop_gen (text "c") false (run (text "c") cached (gets key 9 false ∷ [])) key 1).1 ≡ true
unfolding drop_gen run step get bytes_eq update
took = refl

drop_gen-run_example :
    (size : ℕ) × (holds (run (text "c") cached (gets key 9 false ∷ [])).store key 1 size ≡ true)
    × (holds cached.store key 1 size ≡ true)
drop_gen-run_example =
    drop_gen-run (text "c") false cached (gets key 9 false ∷ []) key 1 (omega arith) took

key_valid-key : key_valid key ≡ true
unfolding key_valid
key_valid-key = refl

drop-Purges_example :
    Purges
      (text "c")
      key
      cached
      (drop (text "c") false cached key).0
      (drop (text "c") false cached key).1
drop-Purges_example = drop-Purges (text "c") false cached key key_valid-key

warm : run (text "c") boot warm_steps ≡ cached
unfolding run step get promote_if_fits bytes_eq update
warm = refl
