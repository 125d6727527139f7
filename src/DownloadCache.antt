-- ===== src/DownloadCache.antt =====
-- internal/downloadcache/downloadcache.go: the store of promoted files. The disk is the list of its
-- files; each call that may fail for a reason outside takes a Boolean that says whether it does.
-- Sizes and the running total are natural numbers: the invariant of the store shows that the total
-- never goes below zero.
pub mod Steps
pub mod Closure
pub mod Accounting
pub mod Budget
pub mod Generations
pub mod Purge
mod Tests
use indelible.Common.{
  ℕ, zero, suc, ◌+◌, ◌-◌, Bool, true, false, not, ◌&&◌, ◌||◌, List, [], ◌∷◌, ◌++◌, Option, none,
  some, map, ◌==◌, ltb, leb, if◌then◌else◌, find, all, any, keep, take, sum, length, Bytes,
  bytes_eq, Result, ok, err,
}
use indelible.Common.Sql.{update, delete}
use indelible.Token.{is_null}

pub data CacheError : Type 0 where
  not_ready over_budget invalid not_exist io_error : CacheError

-- Lowercase hexadecimal.
abbrev pub is_hex : ℕ → Bool
is_hex c = (leb 48 c && leb c 57) || (leb 97 c && leb c 102)

unfoldable pub key_valid : Bytes → Bool
key_valid key = leb 16 (length key) && leb (length key) 128 && all is_hex key

pub record Entry : Type 0 where
  pub key : Bytes
  pub size : ℕ
  pub last_access : ℕ
  pub gen : ℕ

pub record Store : Type 0 where
  pub entries : List Entry
  pub bytes : ℕ
  pub ready : Bool
  pub gen_seq : ℕ

pub record File : Type 0 where
  pub path : Bytes
  pub size : ℕ
  pub regular : Bool

abbrev pub new_store : Store
new_store = record { entries = []; bytes = 0; ready = false; gen_seq = 0 }

abbrev pub has_key : Bytes → Entry → Bool
has_key key e = bytes_eq e.key key

abbrev pub at : Bytes → File → Bool
at p f = bytes_eq f.path p

abbrev pub drop_bytes : ℕ → Bytes → Bytes
drop_bytes zero b = b
drop_bytes (suc n) [] = []
drop_bytes (suc n) (c ∷ cs) = drop_bytes n cs

-- `root/ab/cd/<key>`, for a root with no slash at its end.
unfoldable pub path_of : Bytes → Bytes → Bytes
path_of root key = root ++ 47 ∷ take 2 key ++ 47 ∷ take 2 (drop_bytes 2 key) ++ 47 ∷ key

unfoldable pub lstat : List File → Bytes → Option File
lstat disk p = find (at p) disk

-- os.Remove: an error of the system other than a missing file leaves the disk as it was.
unfoldable pub remove : Bool → List File → Bytes → List File × Option CacheError
remove fails disk p =
    if any (at p) disk
    then if fails then (disk, some io_error) else (delete (at p) disk, none)
    else (disk, some not_exist)

-- os.Rename onto a path that may be taken.
unfoldable pub rename : List File → Bytes → Bytes → List File
rename disk src dst =
    update (at src) (λ f. record f { path = dst }) (delete (λ f. at dst f && not (at src f)) disk)

unfoldable pub size_of : Option Entry → ℕ
size_of none = 0
size_of (some e) = e.size

-- The map's assignment and deletion at a key, with the total that goes along.
unfoldable pub put_entry : Store → Entry → Store
unfolding size_of
put_entry s e = record s {
  entries = delete (has_key e.key) s.entries ++ e ∷ [];
  bytes = s.bytes + e.size - size_of (find (has_key e.key) s.entries);
}

unfoldable pub delete_entry : Store → Entry → Store
delete_entry s e = record s { entries = delete (has_key e.key) s.entries; bytes = s.bytes - e.size }

-- unlinkLocked: whether a file was removed, or the error that leaves it on the disk.
unfoldable pub unlink_locked : Bytes → Bool → List File → Bytes → List File × Result CacheError Bool
unfolding key_valid path_of remove
unlink_locked root fails disk key =
    if not (key_valid key)
    then (disk, ok false)
    else let (disk', e) = remove fails disk (path_of root key) in
      (disk', elim e [ none ↦ ok true | some not_exist ↦ ok false | some x ↦ err x ])

-- The store with its disk.
pub record World : Type 0 where
  pub store : Store
  pub disk : List File

unfoldable pub drop_gen : Bytes → Bool → World → Bytes → ℕ → World × Bool
unfolding unlink_locked delete_entry
drop_gen root fails w key gen = elim (find (has_key key) w.store.entries) [
  | none ↦ (w, false)
  | some e ↦
      if not (e.gen == gen)
      then (w, false)
      else let (disk', r) = unlink_locked root fails w.disk key in
        elim r [
          | err _ ↦ (record w { disk = disk' }, false)
          | ok _ ↦ (record w { store = delete_entry w.store e; disk = disk' }, true)
        ]
]

unfoldable pub drop : Bytes → Bool → World → Bytes → World × Option CacheError
unfolding unlink_locked delete_entry
drop root fails w key =
    let (disk', r) = unlink_locked root fails w.disk key in
    elim r [
      | err x ↦ (record w { disk = disk' }, some x)
      | ok _ ↦ (
        record w {
          store = elim (find (has_key key) w.store.entries) [
            | none ↦ w.store
            | some e ↦ delete_entry w.store e
          ];
          disk = disk';
        },
        none,
      )
    ]

abbrev pub touch : ℕ → Store → Bytes → Store
touch now s key = record s {
  entries = update (has_key key) (λ e. record e { last_access = now }) s.entries;
}

-- What Lstat must find for an entry of that size.
unfoldable pub intact : Option File → ℕ → Bool
intact none size = false
intact (some f) size = f.regular && f.size == size

-- Get and Open, as far as the store and the disk go: the lookup, the check of the file, and the
-- refresh or the removal. The code releases its lock between the three; here they follow each other
-- with nothing in between. Steps has the sections one by one.
unfoldable pub get : Bytes → Bool → World → Bytes → ℕ → World × Option Bytes
unfolding drop_gen intact path_of lstat
get root fails w key now = elim (find (has_key key) w.store.entries) [
  | none ↦ (w, none)
  | some e ↦
      if intact (lstat w.disk (path_of root key)) e.size
      then (record w { store = touch now w.store key }, some (path_of root key))
      else ((drop_gen root fails w key e.gen).0, none)
]

-- `s.bytes+delta > budget`, where delta is the size less that of an entry of the key.
unfoldable pub fits : Store → Bytes → ℕ → ℕ → Bool
unfolding size_of
fits s key size budget = leb (s.bytes + size) (budget + size_of (find (has_key key) s.entries))

abbrev pub promoted : World → Bytes → ℕ → ℕ → Store
promoted w key size now =
    record (put_entry w.store
      (record { key = key; size = size; last_access = now; gen = suc w.store.gen_seq })) {
        gen_seq = suc w.store.gen_seq;
      }

-- The critical section, for a source file that Lstat found; `fails` is a failed mkdir or rename.
unfoldable pub promote_file :
    Bytes → Bool → World → Bytes → File → ℕ → ℕ → World × Result CacheError Bytes
unfolding fits path_of rename put_entry
promote_file root fails w key f budget now =
    if not f.regular
    then (w, err invalid)
    else if not w.store.ready
    then (w, err not_ready)
    else if not (fits w.store key f.size budget)
    then (w, err over_budget)
    else if fails
    then (w, err io_error)
    else (
      record { store = promoted w key f.size now; disk = rename w.disk f.path (path_of root key) },
      ok (path_of root key),
    )

unfoldable pub promote_if_fits :
    Bytes → Bool → World → Bytes → Bytes → ℕ → ℕ → World × Result CacheError Bytes
unfolding promote_file key_valid lstat
promote_if_fits root fails w key src budget now =
    if not (key_valid key) then (w, err invalid) else elim (lstat w.disk src) [
      | none ↦ (w, err not_exist)
      | some f ↦ promote_file root fails w key f budget now
    ]

-- What Scan does at a file of the tree, of a base name: one that is no valid entry is deleted, the
-- others are indexed.
unfoldable pub scan_file : Bytes → Bool → World → File → Bytes → ℕ → World
unfolding key_valid path_of remove put_entry
scan_file root fails w f name now =
    if not f.regular || not (key_valid name) || not (bytes_eq (path_of root name) f.path)
    then record w { disk = (remove fails w.disk f.path).0 }
    else if any (has_key name) w.store.entries
    then w
    else record w { store = promoted w name f.size now }

unfoldable pub stats : Store → ℕ × ℕ
stats s = (length s.entries, s.bytes)

-- One entry of an Oldest snapshot.
pub record Victim : Type 0 where
  pub key : Bytes
  pub gen : ℕ
  pub size : ℕ
  pub last_access : ℕ

abbrev pub victim : Entry → Victim
victim e = record { key = e.key; gen = e.gen; size = e.size; last_access = e.last_access }

-- The sort by last access.
unfoldable pub insert_victim : Victim → List Victim → List Victim
insert_victim v [] = v ∷ []
insert_victim v (x ∷ xs) =
    let rest = insert_victim v xs in
    if leb v.last_access x.last_access then v ∷ x ∷ xs else x ∷ rest

unfoldable pub by_age : List Entry → List Victim
by_age [] = []
by_age (e ∷ es) = insert_victim (victim e) (by_age es)

unfoldable pub oldest : Store → ℕ → List Victim
oldest s max = take max (by_age s.entries)
