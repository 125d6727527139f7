-- ===== src/DownloadCache/Steps.antt =====
-- The sections of code that hold the store's lock, and changes of the disk from outside, in any order.
-- `gets` is a Get whose three sections follow each other. One that other calls come between is its
-- last section alone, which is either the `evicts` of the generation that its first section read or
-- the refresh of the access time, since the first section changes nothing.
use indelible.Common.{ℕ, Bool, true, List, [], ◌∷◌, Bytes}
use indelible.DownloadCache.{World, File, touch, get, promote_if_fits, drop, drop_gen, scan_file}

pub data Step : Type 0 where
  gets : Bytes → ℕ → Bool → Step
  refreshes : Bytes → ℕ → Step
  promotes : Bytes → Bytes → ℕ → ℕ → Bool → Step
  drops : Bytes → Bool → Step
  evicts : Bytes → ℕ → Bool → Step
  scans : File → Bytes → ℕ → Bool → Step
  scan_ends : Step
  disk_becomes : List File → Step

-- The Boolean of a step says whether its system call fails.
unfoldable pub step : Bytes → World → Step → World
step root w (gets key now fails) = (get root fails w key now).0
step root w (refreshes key now) = record w { store = touch now w.store key }
step root w (promotes key src budget now fails) =
    (promote_if_fits root fails w key src budget now).0
step root w (drops key fails) = (drop root fails w key).0
step root w (evicts key gen fails) = (drop_gen root fails w key gen).0
step root w (scans f name now fails) = scan_file root fails w f name now
step root w scan_ends = record w { store = record w.store { ready = true } }
step root w (disk_becomes d) = record w { disk = d }

unfoldable pub run : Bytes → World → List Step → World
run root w [] = w
run root w (x ∷ xs) = run root (step root w x) xs
