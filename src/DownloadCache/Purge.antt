-- ===== src/DownloadCache/Purge.antt =====
-- What a purge of a key leaves on the disk and in the index.
use indelible.Common.{
  ◌≡◌, refl, ap, Bool, true, false, List, [], ◌∷◌, Option, none, some, arith, find, any, Bytes,
  bytes_eq, bytes_eq_iff, Bool-cases, Option-cases, ok, err, inl, inr,
}
use indelible.Common.Sql.{delete}
use indelible.DownloadCache.{
  Store, World, CacheError, io_error, has_key, at, delete_entry, drop, path_of, key_valid, remove,
  unlink_locked,
}
use indelible.DownloadCache.Accounting.{find-has_key}

-- What Drop comes to, by its error.
pub data Purges (root key : Bytes) (w w' : World) : Option CacheError → Type 0 where
  purged :
      any (at (path_of root key)) w'.disk ≡ false
      → any (has_key key) w'.store.entries ≡ false
      → ((p : Bytes)
          → bytes_eq (path_of root key) p ≡ false
          → any (at p) w'.disk ≡ any (at p) w.disk)
      → ((k : Bytes)
          → bytes_eq key k ≡ false
          → any (has_key k) w'.store.entries ≡ any (has_key k) w.store.entries)
      → Purges root key w w' none
  stays :
      (x : CacheError)
      → w'.store ≡ w.store
      → w'.disk ≡ w.disk
      → any (at (path_of root key)) w.disk ≡ true
      → Purges root key w w' (some x)

none-any : {A : Type 0} (p : A → Bool) (xs : List A) → find p xs ≡ none → any p xs ≡ false
none-any p [] h = refl
none-any p (x ∷ xs) h = elim (Bool-cases (p x)) [
  | inl e ↦ let y : some x ≡ none = rw (← h) (rw e refl) in absurd (cc)
  | inr e ↦ rw e (none-any p xs (rw (← h) (rw e refl)))
]

any-deleted : {A : Type 0} (p : A → Bool) (xs : List A) → any p (delete p xs) ≡ false
any-deleted p [] = refl
any-deleted p (x ∷ xs) = ground (arith, any-deleted p xs)

-- Rows that no other test meets are not missed by it.
any-delete-other :
    {A : Type 0} (p q : A → Bool) (xs : List A)
    → ((x : A) → q x ≡ true → p x ≡ false)
    → any p (delete q xs) ≡ any p xs
any-delete-other p q [] h = refl
any-delete-other p q (x ∷ xs) h = elim (Bool-cases (q x)) [
  | inl e ↦ rw (e, h x e) (any-delete-other p q xs h)
  | inr e ↦ rw (e, any-delete-other p q xs h) refl
]

other : (a b c : Bytes) → bytes_eq b c ≡ false → bytes_eq a b ≡ true → bytes_eq a c ≡ false
other a b c n h = rw ((bytes_eq_iff a b).0 h) n

-- The index without a key.
unfoldable unindexed : World → Bytes → Store
unindexed w key = elim (find (has_key key) w.store.entries) [
  | none ↦ w.store
  | some e ↦ delete_entry w.store e
]

unindexed-gone : (w : World) (key : Bytes) → any (has_key key) (unindexed w key).entries ≡ false
unfolding unindexed delete_entry
unindexed-gone w key = elim (Option-cases (find (has_key key) w.store.entries)) [
  | inl n ↦ rw (n, unindexed) (none-any (has_key key) w.store.entries n)
  | inr (e, n) ↦
      let k = find-has_key key w.store.entries e n in
      rw (n, unindexed) (rw k (any-deleted (has_key key) w.store.entries))
]

unindexed-others :
    (w : World) (key k : Bytes)
    → bytes_eq key k ≡ false
    → any (has_key k) (unindexed w key).entries ≡ any (has_key k) w.store.entries
unfolding unindexed delete_entry
unindexed-others w key k d = elim (Option-cases (find (has_key key) w.store.entries)) [
  | inl n ↦ rw (n, unindexed) refl
  | inr (e, n) ↦
      let x = find-has_key key w.store.entries e n in
      rw (n, unindexed)
        (rw x (
          any-delete-other (has_key k) (has_key key) w.store.entries
            (λ r h. other r.key key k d h)))
]

-- For a valid key, Drop that returns nil leaves no file at the key's path and no entry of it, and
-- every other file and entry; Drop that returns an error changes nothing, and the file is there.
pub drop-Purges :
    (root : Bytes) (fails : Bool) (w : World) (key : Bytes)
    → key_valid key ≡ true
    → Purges root key w (drop root fails w key).0 (drop root fails w key).1
unfolding drop unindexed
drop-Purges root fails w key v = elim (Bool-cases (any (at (path_of root key)) w.disk)) [
  | inr a ↦
      let u : unlink_locked root fails w.disk key ≡ (w.disk, ok false) =
        unfold unlink_locked remove in rw (v, a) refl in
      let d = ap (λ r. r.0) u in
      rw (u, drop)
        (purged (rw d a) (unindexed-gone w key) (λ p n. rw d refl)
          (λ k d. unindexed-others w key k d))
  | inl a ↦ elim (Bool-cases fails) [
    | inl x ↦
        let u : unlink_locked root fails w.disk key ≡ (w.disk, err io_error) =
          unfold unlink_locked remove in rw (v, a, x) refl in
        rw (u, drop) (stays io_error refl (ap (λ r. r.0) u) a)
    | inr x ↦
        let u : unlink_locked root fails w.disk key
            ≡ (delete (at (path_of root key)) w.disk, ok true) =
          unfold unlink_locked remove in rw (v, a, x) refl in
        let d = ap (λ r. r.0) u in
        rw (u, drop)
          (purged (rw d (any-deleted (at (path_of root key)) w.disk)) (unindexed-gone w key)
            (λ p n. rw d (
              any-delete-other (at p) (at (path_of root key)) w.disk
                (λ f h. other f.path (path_of root key) p n h)))
            (λ k d. unindexed-others w key k d))
  ]
]
