-- ===== src/DownloadCache/Accounting.antt =====
-- The running total of the store is the sum of its entries' sizes.
use indelible.Common.{
  ℕ, suc, ◌+◌, ◌≤◌, ◌≡◌, refl, sym, ap, subst, ◌∙◌, Bool, false, List, [], ◌∷◌, ◌++◌, some,
  some-injective, map, arith, find, any, sum, All, All-mono, All-append, any-append, Bytes,
  bytes_eq, bytes_eq_iff, bytes_eq_swap, Bool-cases, inl, inr,
}
use indelible.Common.Sql.{update, delete, All-update}
use indelible.DownloadCache.{
  Entry, Store, World, has_key, put_entry, delete_entry, size_of, touch, promoted,
}
use indelible.DownloadCache.Steps.{Step, run}
use indelible.DownloadCache.Closure.{Closed, run-closed}

abbrev pub total : List Entry → ℕ
total es = sum (map (λ e. e.size) es)

unfoldable pub UniqueKeys : List Entry → Type 0
UniqueKeys [] = Unit {0}
UniqueKeys (e ∷ es) = (any (has_key e.key) es ≡ false) × UniqueKeys es

pub record Accounted (s : Store) : Type 0 where
  pub exact : s.bytes ≡ total s.entries
  pub unique : UniqueKeys s.entries
  pub bounded : All (λ e. e.gen ≤ s.gen_seq) s.entries

pub delete-none : (p : Entry → Bool) (es : List Entry) → any p es ≡ false → delete p es ≡ es
delete-none p [] h = refl
delete-none p (e ∷ es) h =
    let n : p e ≡ false = ground arith in rw n (ap (λ l. e ∷ l) (delete-none p es (ground arith)))

-- What the entry of a key and the others add up to.
total-delete :
    (key : Bytes) (es : List Entry)
    → UniqueKeys es
    → total (delete (has_key key) es) + size_of (find (has_key key) es) ≡ total es
unfolding UniqueKeys size_of
total-delete key [] u = omega arith
total-delete key (e ∷ es) u = elim (Bool-cases (bytes_eq e.key key)) [
  | inl h ↦
      let k = (bytes_eq_iff e.key key).0 h in
      let n = subst (λ x. any (has_key x) es ≡ false) k u.0 in
      rw (h, delete-none (has_key key) es n) (omega arith)
  | inr h ↦ rw h (omega (arith, total-delete key es u.1))
]

any-delete : (p q : Entry → Bool) (es : List Entry) → any p es ≡ false → any p (delete q es) ≡ false
any-delete p q [] h = refl
any-delete p q (e ∷ es) h = ground (arith, any-delete p q es)

pub any-delete_same : (p : Entry → Bool) (es : List Entry) → any p (delete p es) ≡ false
any-delete_same p [] = refl
any-delete_same p (e ∷ es) = ground (arith, any-delete_same p es)

UniqueKeys-delete : (q : Entry → Bool) (es : List Entry) → UniqueKeys es → UniqueKeys (delete q es)
unfolding UniqueKeys
UniqueKeys-delete q [] u = tt
UniqueKeys-delete q (e ∷ es) u = elim (Bool-cases (q e)) [
  | inl h ↦ rw h (UniqueKeys-delete q es u.1)
  | inr h ↦ rw h (any-delete (has_key e.key) q es u.0, UniqueKeys-delete q es u.1)
]

UniqueKeys-append :
    (e : Entry) (es : List Entry)
    → any (has_key e.key) es ≡ false
    → UniqueKeys es
    → UniqueKeys (es ++ e ∷ [])
unfolding UniqueKeys
UniqueKeys-append e [] n u = (refl, tt)
UniqueKeys-append e (r ∷ es) n u =
    let s = bytes_eq_swap r.key e.key (ground arith) in
    (
      any-append (has_key r.key) es (e ∷ []) ∙ (rw (u.0, s) refl),
      UniqueKeys-append e es (ground arith) u.1,
    )

total-append : (e : Entry) (es : List Entry) → total (es ++ e ∷ []) ≡ total es + e.size
total-append e [] = omega arith
total-append e (r ∷ es) = omega (arith, total-append e es)

All-delete :
    (P : Entry → Type 0) (q : Entry → Bool) (es : List Entry) → All P es → All P (delete q es)
All-delete P q [] a = tt
All-delete P q (e ∷ es) a = elim (Bool-cases (q e)) [
  | inl h ↦ rw h (All-delete P q es a.1)
  | inr h ↦ rw h (a.0, All-delete P q es a.1)
]

promoted-Accounted :
    (w : World) (key : Bytes) (size now : ℕ)
    → Accounted w.store
    → Accounted (promoted w key size now)
unfolding put_entry
promoted-Accounted w key size now a =
    let e : Entry = record {
      key = key;
      size = size;
      last_access = now;
      gen = suc w.store.gen_seq;
    } in
    let rest = delete (has_key key) w.store.entries in
    let t = total-delete key w.store.entries a.unique in
    let x = a.exact in
    record {
      exact = rw (total-append e rest) (omega arith);
      unique =
          UniqueKeys-append e rest (any-delete_same (has_key key) w.store.entries)
            (UniqueKeys-delete (has_key key) w.store.entries a.unique);
      bounded =
          All-append (λ r. r.gen ≤ suc w.store.gen_seq) rest (e ∷ [])
            (All-delete _ (has_key key) w.store.entries
              (All-mono w.store.entries (λ r b. omega arith) a.bounded))
            (omega arith, tt);
    }

pub find-has_key :
    (key : Bytes) (es : List Entry) (e : Entry) → find (has_key key) es ≡ some e → e.key ≡ key
find-has_key key [] e h = cc
find-has_key key (r ∷ es) e h = elim (Bool-cases (bytes_eq r.key key)) [
  | inl x ↦
      let y : some r ≡ some e = rw (← h) (rw x refl) in
      ap (λ v. v.key) (sym (some-injective _ _ y)) ∙ (bytes_eq_iff r.key key).0 x
  | inr x ↦ find-has_key key es e (rw (← h) (rw x refl))
]

delete_entry-Accounted :
    (s : Store) (key : Bytes) (e : Entry)
    → find (has_key key) s.entries ≡ some e
    → Accounted s
    → Accounted (delete_entry s e)
unfolding delete_entry size_of
delete_entry-Accounted s key e f a =
    let k = find-has_key key s.entries e f in
    let t = total-delete key s.entries a.unique in
    let o : size_of (find (has_key key) s.entries) ≡ e.size = rw f refl in
    let x = a.exact in
    rw k (record {
      exact = omega arith;
      unique = UniqueKeys-delete (has_key key) s.entries a.unique;
      bounded = All-delete _ (has_key key) s.entries a.bounded;
    })

touched : ℕ → Entry → Entry
touched now e = record e { last_access = now }

any-touched :
    (key key' : Bytes) (now : ℕ) (es : List Entry)
    → any (has_key key) (update (has_key key') (touched now) es) ≡ any (has_key key) es
unfolding update touched
any-touched key key' now [] = refl
any-touched key key' now (e ∷ es) = elim (Bool-cases (has_key key' e)) [
  | inl h ↦ rw (h, any-touched key key' now es) refl
  | inr h ↦ rw (h, any-touched key key' now es) refl
]

UniqueKeys-touched :
    (key : Bytes) (now : ℕ) (es : List Entry)
    → UniqueKeys es
    → UniqueKeys (update (has_key key) (touched now) es)
unfolding UniqueKeys update touched
UniqueKeys-touched key now [] u = tt
UniqueKeys-touched key now (e ∷ es) u =
    let ih = UniqueKeys-touched key now es u.1 in
    let a = any-touched e.key key now es ∙ u.0 in
    elim (Bool-cases (has_key key e)) [
      | inl h ↦ rw h (unfold touched in a, ih)
      | inr h ↦ rw h (unfold touched in a, ih)
    ]

total-touched :
    (key : Bytes) (now : ℕ) (es : List Entry)
    → total (update (has_key key) (touched now) es) ≡ total es
unfolding update touched
total-touched key now [] = refl
total-touched key now (e ∷ es) = elim (Bool-cases (has_key key e)) [
  | inl h ↦ rw (h, total-touched key now es) refl
  | inr h ↦ rw (h, total-touched key now es) refl
]

touch-Accounted : (s : Store) (key : Bytes) (now : ℕ) → Accounted s → Accounted (touch now s key)
unfolding touched
touch-Accounted s key now a = record {
  exact = a.exact ∙ sym (total-touched key now s.entries);
  unique = UniqueKeys-touched key now s.entries a.unique;
  bounded = All-update _ (has_key key) (touched now) s.entries a.bounded (λ r e b. b);
}

pub Accounted-Closed : Closed Accounted
Accounted-Closed = record {
  when_promoted = promoted-Accounted;
  when_deleted = delete_entry-Accounted;
  when_touched = touch-Accounted;
  when_ready = λ s a. record { exact = a.exact; unique = a.unique; bounded = a.bounded };
}

-- Any interleaving of lookups, promotions, drops, evictions, scanned files and outside changes of
-- the disk keeps the running total equal to the sum of the entries' sizes, one entry for a key, and
-- every generation at most the last one given out.
pub run-Accounted :
    (root : Bytes) (w : World) (xs : List Step)
    → Accounted w.store
    → Accounted (run root w xs).store
run-Accounted root w xs a = run-closed Accounted Accounted-Closed root w xs a
