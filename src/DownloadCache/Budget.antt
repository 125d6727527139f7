-- ===== src/DownloadCache/Budget.antt =====
-- The budget of a promotion.
use indelible.Common.{
  ℕ, ◌≤◌, ◌≡◌, refl, sym, ap, subst, ◌∙◌, Bool, true, false, not, ◌&&◌, List, [], ◌∷◌, ◌++◌, none,
  some, some-injective, arith, find, Bytes, bytes_eq, bytes_eq_refl, bytes_eq_iff, Bool-cases,
  Option-cases, Result, ok, err, inl, inr,
}
use indelible.Common.Sql.{update, delete}
use indelible.DownloadCache.{
  File, Entry, World, CacheError, at, has_key, path_of, put_entry, fits, lstat, rename,
  promote_file, promote_if_fits, key_valid,
}
use indelible.DownloadCache.Accounting.{Accounted}

-- What a promotion of a source under a key comes to.
pub data Promotes (root : Bytes) (w w' : World) (key src : Bytes) (budget : ℕ)
    : Result CacheError Bytes → Type 0 where
  stored :
      (f : File) (e : Entry)
      → lstat w.disk src ≡ some f
      → lstat w'.disk (path_of root key) ≡ some (record f { path = path_of root key })
      → (bytes_eq (path_of root key) src ≡ false → lstat w'.disk src ≡ none)
      → find (has_key key) w'.store.entries ≡ some e
      → e.size ≡ f.size
      → w'.store.bytes ≤ budget
      → Promotes root w w' key src budget (ok (path_of root key))
  refused : (x : CacheError) → w' ≡ w → Promotes root w w' key src budget (err x)

lstat-path : (disk : List File) (p : Bytes) (f : File) → find (at p) disk ≡ some f → f.path ≡ p
lstat-path [] p f h = cc
lstat-path (x ∷ disk) p f h = elim (Bool-cases (at p x)) [
  | inl a ↦
      let y : some x ≡ some f = rw (← h) (rw a refl) in
      ap (λ v. v.path) (sym (some-injective _ _ y)) ∙ (bytes_eq_iff x.path p).0 a
  | inr a ↦ lstat-path disk p f (rw (← h) (rw a refl))
]

abbrev moved : Bytes → File → File
moved dst f = record f { path = dst }

abbrev renamed : List File → Bytes → Bytes → List File
renamed disk src dst = update (at src) (moved dst) (delete (λ f. at dst f && not (at src f)) disk)

find-renamed :
    (disk : List File) (src dst : Bytes) (f : File)
    → find (at src) disk ≡ some f
    → find (at dst) (renamed disk src dst) ≡ some (moved dst f)
unfolding update
find-renamed [] src dst f h = cc
find-renamed (x ∷ disk) src dst f h = elim (Bool-cases (at src x)) [
  | inl a ↦
      let y : some x ≡ some f = rw (← h) (rw a refl) in
      let k : (at dst x && not (at src x)) ≡ false = ground arith in
      rw (k, a, bytes_eq_refl dst) (ap (λ v. some (moved dst v)) (some-injective _ _ y))
  | inr a ↦
      let ih = find-renamed disk src dst f (rw (← h) (rw a refl)) in
      elim (Bool-cases (at dst x)) [ inl b ↦ rw (b, a) ih | inr b ↦ rw (b, a, b) ih ]
]

find-renamed_source :
    (disk : List File) (src dst : Bytes)
    → bytes_eq dst src ≡ false
    → find (at src) (renamed disk src dst) ≡ none
unfolding update
find-renamed_source [] src dst d = refl
find-renamed_source (x ∷ disk) src dst d =
    let ih = find-renamed_source disk src dst d in
    elim (Bool-cases (at src x)) [
      | inl a ↦ let k : (at dst x && not (at src x)) ≡ false = ground arith in rw (k, a, d) ih
      | inr a ↦ elim (Bool-cases (at dst x)) [ inl b ↦ rw (b, a) ih | inr b ↦ rw (b, a, a) ih ]
    ]

find-put :
    (p : Entry → Bool) (es : List Entry) (e : Entry)
    → p e ≡ true
    → find p (delete p es ++ e ∷ []) ≡ some e
find-put p [] e h = rw h refl
find-put p (x ∷ es) e h =
    let ih = find-put p es e h in elim (Bool-cases (p x)) [ inl a ↦ rw a ih | inr a ↦ rw (a, a) ih ]

promote_file-Promotes :
    (root : Bytes) (fails : Bool) (w : World) (key : Bytes) (f : File) (budget now : ℕ)
    → lstat w.disk f.path ≡ some f
    → Accounted w.store
    → Promotes root w
        (promote_file root fails w key f budget now).0
        key
        f.path
        budget
        (promote_file root fails w key f budget now).1
unfolding promote_file fits put_entry lstat rename
promote_file-Promotes root fails w key f budget now l a = elim (Bool-cases f.regular) [
  | inr r ↦ rw r (refused _ refl)
  | inl r ↦ elim (Bool-cases w.store.ready) [
    | inr d ↦ rw (r, d) (refused _ refl)
    | inl d ↦ elim (Bool-cases (fits w.store key f.size budget)) [
      | inr b ↦ rw (r, d, b) (refused _ refl)
      | inl b ↦ elim (Bool-cases fails) [
        | inl x ↦ rw (r, d, b, x) (refused _ refl)
        | inr x ↦
            rw (r, d, b, x)
              (stored f _ l (find-renamed w.disk f.path (path_of root key) f l)
                (find-renamed_source w.disk f.path (path_of root key))
                (find-put (has_key key) w.store.entries _ (bytes_eq_refl key)) refl (ground arith))
      ]
    ]
  ]
]

-- On a store whose total is exact, PromoteIfFits either moves the file that is at the source to the
-- path of the key, with an entry of the key and of the file's size, and the total is within the budget,
-- or fails and changes nothing.
pub promote_if_fits-Promotes :
    (root : Bytes) (fails : Bool) (w : World) (key src : Bytes) (budget now : ℕ)
    → Accounted w.store
    → Promotes root w
        (promote_if_fits root fails w key src budget now).0
        key
        src
        budget
        (promote_if_fits root fails w key src budget now).1
unfolding promote_if_fits lstat
promote_if_fits-Promotes root fails w key src budget now a = elim (Bool-cases (key_valid key)) [
  | inr v ↦ rw v (refused _ refl)
  | inl v ↦ elim (Option-cases (lstat w.disk src)) [
    | inl n ↦ rw (v, n, promote_if_fits) (refused _ refl)
    | inr (f, n) ↦
        let p = lstat-path w.disk src f n in
        rw (v, n, promote_if_fits)
          (subst
            (λ x.
              Promotes root w (promote_file root fails w key f budget now).0 key x budget
                (promote_file root fails w key f budget now).1)
            p
            (promote_file-Promotes root fails w key f budget now
              (subst (λ x. lstat w.disk x ≡ some f) (sym p) n) a))
  ]
]
