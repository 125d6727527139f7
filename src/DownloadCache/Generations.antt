-- ===== src/DownloadCache/Generations.antt =====
-- An eviction that was planned against one promotion of a key never takes a later one.
use indelible.Common.{
  ℕ, suc, ◌≤◌, ◌≡◌, refl, sym, ◌∙◌, Bool, true, false, ◌&&◌, List, [], ◌∷◌, some, some-injective,
  arith, ◌==◌, find, any, any-append, Bytes, bytes_eq_iff, Bool-cases, Option-cases, inl, inr,
}
use indelible.Common.Sql.{delete, any-update}
use indelible.DownloadCache.{
  Entry, Store, World, has_key, put_entry, delete_entry, touch, drop_gen, promoted,
}
use indelible.DownloadCache.Steps.{Step, run}
use indelible.DownloadCache.Closure.{Closed, run-closed}
use indelible.DownloadCache.Accounting.{find-has_key}

-- An entry of that key, generation and size.
abbrev pub is_promotion : Bytes → ℕ → ℕ → Entry → Bool
is_promotion key gen size e = has_key key e && e.gen == gen && e.size == size

abbrev pub holds : Store → Bytes → ℕ → ℕ → Bool
holds s key gen size = any (is_promotion key gen size) s.entries

-- A store that has what it has from an earlier one, or at later generations.
record Later (s s' : Store) : Type 0 where
  seq : s.gen_seq ≤ s'.gen_seq
  kept :
      (key : Bytes) (gen size : ℕ)
      → gen ≤ s.gen_seq
      → holds s' key gen size ≡ true
      → holds s key gen size ≡ true

Later-refl : (s : Store) → Later s s
Later-refl s = record { seq = omega arith; kept = λ k g z b h. h }

Later-trans : (a b c : Store) → Later a b → Later b c → Later a c
Later-trans a b c x y = record {
  seq = omega (arith, x.seq, y.seq);
  kept = λ k g z l h. x.kept k g z l (y.kept k g z (omega (arith, x.seq)) h);
}

any-of-delete :
    (p q : Entry → Bool) (es : List Entry) → any p (delete q es) ≡ true → any p es ≡ true
any-of-delete p q [] h = h
any-of-delete p q (e ∷ es) h = elim (Bool-cases (q e)) [
  | inl x ↦ let y = any-of-delete p q es (rw (← h) (rw x refl)) in ground arith
  | inr x ↦ elim (Bool-cases (p e)) [
    | inl z ↦ ground arith
    | inr z ↦ let y = any-of-delete p q es (rw (← h) (rw (x, z) refl)) in ground arith
  ]
]

Later-promoted : (w : World) (key : Bytes) (size now : ℕ) → Later w.store (promoted w key size now)
unfolding put_entry
Later-promoted w key size now = record {
  seq = omega arith;
  kept = λ k g z l h.
      let rest = delete (has_key key) w.store.entries in
      let e : Entry = record {
        key = key;
        size = size;
        last_access = now;
        gen = suc w.store.gen_seq;
      } in
      let a = any-append (is_promotion k g z) rest (e ∷ []) in
      let r : any (is_promotion k g z) rest ≡ true = ground arith in
      any-of-delete (is_promotion k g z) (has_key key) w.store.entries r;
}

Later-delete_entry : (s : Store) (e : Entry) → Later s (delete_entry s e)
unfolding delete_entry
Later-delete_entry s e = record {
  seq = omega arith;
  kept = λ k g z l h. any-of-delete (is_promotion k g z) (has_key e.key) s.entries h;
}

Later-touch : (s : Store) (key : Bytes) (now : ℕ) → Later s (touch now s key)
Later-touch s key now = record {
  seq = omega arith;
  kept = λ k g z l h.
      sym (
        any-update (has_key key) (λ e. record e { last_access = now }) (is_promotion k g z)
          s.entries (λ e x. refl))
      ∙ h;
}

Later-Closed : (s : Store) → Closed (Later s)
Later-Closed s = record {
  when_promoted = λ w key size now a.
      Later-trans s w.store (promoted w key size now) a (Later-promoted w key size now);
  when_deleted = λ t key e f a. Later-trans s t (delete_entry t e) a (Later-delete_entry t e);
  when_touched = λ t key now a. Later-trans s t (touch now t key) a (Later-touch t key now);
  when_ready = λ t a. record { seq = a.seq; kept = a.kept };
}

find-any :
    (p q : Entry → Bool) (es : List Entry) (e : Entry)
    → find p es ≡ some e
    → q e ≡ true
    → any q es ≡ true
find-any p q [] e f h = cc
find-any p q (r ∷ es) e f h = elim (Bool-cases (p r)) [
  | inl x ↦
      let y : some r ≡ some e = rw (← f) (rw x refl) in
      let z = some-injective _ _ y in rw (z, h) refl
  | inr x ↦ let ih = find-any p q es e (rw (← f) (rw x refl)) h in ground arith
]

-- What DropGen takes where it acts: an entry of that key and generation.
drop_gen-takes :
    (root : Bytes) (fails : Bool) (w : World) (key : Bytes) (gen : ℕ)
    → (drop_gen root fails w key gen).1 ≡ true
    → (size : ℕ) × (holds w.store key gen size ≡ true)
unfolding drop_gen
drop_gen-takes root fails w key gen h = elim (Option-cases (find (has_key key) w.store.entries)) [
  | inl n ↦ let y : false ≡ true = rw (← h) (rw (n, drop_gen) refl) in absurd (ground arith)
  | inr (e, n) ↦ elim (Bool-cases (e.gen == gen)) [
    | inr g ↦ let y : false ≡ true = rw (← h) (rw (n, g, drop_gen) refl) in absurd (ground arith)
    | inl g ↦
        let k = (bytes_eq_iff e.key key).1 (find-has_key key w.store.entries e n) in
        (
          e.size,
          find-any (has_key key) (is_promotion key gen e.size) w.store.entries e n (ground arith),
        )
  ]
]

-- Where DropGen acts on a generation that an earlier state of the store had given out, after any
-- steps since, the store had an entry of that key and generation in that earlier state, with the
-- size that it has when it is taken: a promotion in between is never taken.
pub drop_gen-run :
    (root : Bytes) (fails : Bool) (w : World) (xs : List Step) (key : Bytes) (gen : ℕ)
    → gen ≤ w.store.gen_seq
    → (drop_gen root fails (run root w xs) key gen).1 ≡ true
    → (size : ℕ) × (holds (run root w xs).store key gen size ≡ true)
      × (holds w.store key gen size ≡ true)
drop_gen-run root fails w xs key gen b h =
    let (size, t) = drop_gen-takes root fails (run root w xs) key gen h in
    let l = run-closed (Later w.store) (Later-Closed w.store) root w xs (Later-refl w.store) in
    (size, t, l.kept key gen size b t)
