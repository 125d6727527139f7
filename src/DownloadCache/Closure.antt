-- ===== src/DownloadCache/Closure.antt =====
-- The changes that the steps make to the store are four: an entry is promoted, deleted or touched, and
-- the scan ends. What these keep, every run keeps.
use indelible.Common.{
  ℕ, ◌≡◌, ◌⊎◌, refl, sym, subst, Bool, true, not, ◌||◌, List, [], ◌∷◌, some, ◌==◌, find, any, Bytes,
  bytes_eq, Bool-cases, Option-cases, Result, ok, err, inl, inr,
}
use indelible.DownloadCache.{
  Entry, Store, File, World, has_key, delete_entry, touch, get, drop, drop_gen, promoted, fits,
  intact, lstat, path_of, promote_file, promote_if_fits, scan_file, key_valid, unlink_locked,
}
use indelible.DownloadCache.Steps.{
  Step, gets, refreshes, promotes, drops, evicts, scans, scan_ends, disk_becomes, step, run,
}

pub record Closed (P : Store → Type 0) : Type 0 where
  pub when_promoted :
      (w : World) (key : Bytes) (size now : ℕ) → P w.store → P (promoted w key size now)
  pub when_deleted :
      (s : Store) (key : Bytes) (e : Entry)
      → find (has_key key) s.entries ≡ some e
      → P s
      → P (delete_entry s e)
  pub when_touched : (s : Store) (key : Bytes) (now : ℕ) → P s → P (touch now s key)
  pub when_ready : (s : Store) → P s → P (record s { ready = true })

pub Result-cases :
    {E A : Type 0} (r : Result E A) → ((a : A) × (r ≡ ok a)) ⊎ ((x : E) × (r ≡ err x))
Result-cases (ok a) = inl (a, refl)
Result-cases (err x) = inr (x, refl)

promote_file-cases :
    (root : Bytes) (fails : Bool) (w : World) (key : Bytes) (f : File) (budget now : ℕ)
    → ((promote_file root fails w key f budget now).0.store ≡ w.store)
      ⊎ ((promote_file root fails w key f budget now).0.store ≡ promoted w key f.size now)
unfolding promote_file
promote_file-cases root fails w key f budget now = elim (Bool-cases f.regular) [
  | inr r ↦ rw r (inl refl)
  | inl r ↦ elim (Bool-cases w.store.ready) [
    | inr d ↦ rw (r, d) (inl refl)
    | inl d ↦ elim (Bool-cases (fits w.store key f.size budget)) [
      | inr b ↦ rw (r, d, b) (inl refl)
      | inl b ↦ elim (Bool-cases fails) [
        | inl x ↦ rw (r, d, b, x) (inl refl)
        | inr x ↦ rw (r, d, b, x) (inr refl)
      ]
    ]
  ]
]

module _ (P : Store → Type 0) (c : Closed P) (root : Bytes) (fails : Bool) (w : World) where
  pub drop_gen-closed :
      (key : Bytes) (gen : ℕ) → P w.store → P (drop_gen root fails w key gen).0.store
  unfolding drop_gen
  drop_gen-closed key gen a = elim (Option-cases (find (has_key key) w.store.entries)) [
    | inl n ↦ rw (n, drop_gen) a
    | inr (e, n) ↦ elim (Bool-cases (e.gen == gen)) [
      | inr g ↦ rw (n, g, drop_gen) a
      | inl g ↦ elim (Result-cases (unlink_locked root fails w.disk key).1) [
        | inl (b, r) ↦ rw (n, g, r, drop_gen) (c.when_deleted w.store key e n a)
        | inr (x, r) ↦ rw (n, g, r, drop_gen) a
      ]
    ]
  ]

  drop-closed : (key : Bytes) → P w.store → P (drop root fails w key).0.store
  unfolding drop
  drop-closed key a = elim (Result-cases (unlink_locked root fails w.disk key).1) [
    | inr (x, r) ↦ rw (r, drop) a
    | inl (b, r) ↦ elim (Option-cases (find (has_key key) w.store.entries)) [
      | inl n ↦ rw (r, n, drop) a
      | inr (e, n) ↦ rw (r, n, drop) (c.when_deleted w.store key e n a)
    ]
  ]

  get-closed : (key : Bytes) (now : ℕ) → P w.store → P (get root fails w key now).0.store
  unfolding get
  get-closed key now a = elim (Option-cases (find (has_key key) w.store.entries)) [
    | inl n ↦ rw (n, get) a
    | inr (e, n) ↦ elim (Bool-cases (intact (lstat w.disk (path_of root key)) e.size)) [
      | inl i ↦ rw (n, i, get) (c.when_touched w.store key now a)
      | inr i ↦ rw (n, i, get) (drop_gen-closed key e.gen a)
    ]
  ]

  promote_if_fits-closed :
      (key src : Bytes) (budget now : ℕ)
      → P w.store
      → P (promote_if_fits root fails w key src budget now).0.store
  unfolding promote_if_fits
  promote_if_fits-closed key src budget now a = elim (Bool-cases (key_valid key)) [
    | inr v ↦ rw v a
    | inl v ↦ elim (Option-cases (lstat w.disk src)) [
      | inl n ↦ rw (v, n, promote_if_fits) a
      | inr (f, n) ↦
          rw (v, n, promote_if_fits)
            (elim (promote_file-cases root fails w key f budget now) [
              | inl e ↦ subst P (sym e) a
              | inr e ↦ subst P (sym e) (c.when_promoted w key f.size now a)
            ])
    ]
  ]

  scan_file-closed :
      (f : File) (name : Bytes) (now : ℕ) → P w.store → P (scan_file root fails w f name now).store
  unfolding scan_file
  scan_file-closed f name now a =
      elim (Bool-cases
        (not f.regular || not (key_valid name) || not (bytes_eq (path_of root name) f.path))) [
          | inl x ↦ rw x a
          | inr x ↦ elim (Bool-cases (any (has_key name) w.store.entries)) [
            | inl y ↦ rw (x, y) a
            | inr y ↦ rw (x, y) (c.when_promoted w name f.size now a)
          ]
        ]

module _ (P : Store → Type 0) (c : Closed P) (root : Bytes) where
  step-closed : (w : World) (x : Step) → P w.store → P (step root w x).store
  unfolding step
  step-closed w (gets key now fails) a = get-closed P c root fails w key now a
  step-closed w (refreshes key now) a = c.when_touched w.store key now a
  step-closed w (promotes key src budget now fails) a =
      promote_if_fits-closed P c root fails w key src budget now a
  step-closed w (drops key fails) a = drop-closed P c root fails w key a
  step-closed w (evicts key gen fails) a = drop_gen-closed P c root fails w key gen a
  step-closed w (scans f name now fails) a = scan_file-closed P c root fails w f name now a
  step-closed w scan_ends a = c.when_ready w.store a
  step-closed w (disk_becomes d) a = a

  pub run-closed : (w : World) (xs : List Step) → P w.store → P (run root w xs).store
  unfolding run
  run-closed w [] a = a
  run-closed w (x ∷ xs) a = run-closed (step root w x) xs (step-closed w x a)
