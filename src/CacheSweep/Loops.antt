-- ===== src/CacheSweep/Loops.antt =====
-- The loop that the three sweeps of internal/worker/cache_sweep.go share, and its batches.
use indelible.Common.{
  ℕ, zero, suc, ◌+◌, ◌<◌, ◌≡◌, refl, subst, Bool, true, false, List, [], ◌∷◌, some, arith, ◌==◌,
  if◌then◌else◌, length, find, any, Bytes, bytes_eq_iff, Bool-cases, Option-cases, inl, inr,
}
use indelible.Common.Sql.{delete}
use indelible.DownloadCache.{Entry, World, Victim, has_key, drop_gen, delete_entry, unlink_locked}
use indelible.DownloadCache.Closure.{Result-cases, drop_gen-closed}
use indelible.DownloadCache.Accounting.{
  Accounted, Accounted-Closed, UniqueKeys, delete-none, find-has_key,
}
use indelible.CacheSweep.{Evicted, evict, loop}

-- What DropGen did, by its Boolean.
pub data Dropped (w w' : World) (key : Bytes) : Bool → Type 0 where
  kept : w'.store ≡ w.store → Dropped w w' key false
  taken :
      (e : Entry)
      → find (has_key key) w.store.entries ≡ some e
      → w'.store ≡ delete_entry w.store e
      → Dropped w w' key true

pub drop_gen-Dropped :
    (root : Bytes) (fails : Bool) (w : World) (key : Bytes) (gen : ℕ)
    → Dropped w (drop_gen root fails w key gen).0 key (drop_gen root fails w key gen).1
unfolding drop_gen
drop_gen-Dropped root fails w key gen = elim (Option-cases (find (has_key key) w.store.entries)) [
  | inl n ↦ rw (n, drop_gen) (kept refl)
  | inr (e, n) ↦ elim (Bool-cases (e.gen == gen)) [
    | inr g ↦ rw (n, g, drop_gen) (kept refl)
    | inl g ↦ elim (Result-cases (unlink_locked root fails w.disk key).1) [
      | inl (b, r) ↦ rw (n, g, r, drop_gen) (taken e n refl)
      | inr (x, r) ↦ rw (n, g, r, drop_gen) (kept refl)
    ]
  ]
]

length-delete :
    (key : Bytes) (es : List Entry) (e : Entry)
    → UniqueKeys es
    → find (has_key key) es ≡ some e
    → length (delete (has_key key) es) + 1 ≡ length es
unfolding UniqueKeys
length-delete key [] e u f = absurd (cc)
length-delete key (r ∷ es) e u f = elim (Bool-cases (has_key key r)) [
  | inl h ↦
      let k = (bytes_eq_iff r.key key).0 h in
      let n = subst (λ x. any (has_key x) es ≡ false) k u.0 in
      rw (h, delete-none (has_key key) es n) (omega arith)
  | inr h ↦ let i = length-delete key es e u.1 (rw (← f) (rw h refl)) in rw h (omega (arith, i))
]

-- A batch leaves the total exact, and one entry less for each that it took.
pub record Evicts (w : World) (b : Evicted) : Type 0 where
  pub accounted : Accounted b.world.store
  pub fewer : length b.world.store.entries + b.count ≡ length w.store.entries

one_less :
    (root : Bytes) (fails : Bool) (w : World) (v : Victim) (b : Bool)
    → (drop_gen root fails w v.key v.gen).1 ≡ b
    → Accounted w.store
    → length (drop_gen root fails w v.key v.gen).0.store.entries + (if b then 1 else 0)
      ≡ length w.store.entries
one_less root fails w v b e a =
    at_result (drop_gen root fails w v.key v.gen).0 b
      (subst (Dropped w _ v.key) e (drop_gen-Dropped root fails w v.key v.gen))
  where
    at_result :
        (w' : World) (c : Bool)
        → Dropped w w' v.key c
        → length w'.store.entries + (if c then 1 else 0) ≡ length w.store.entries
    at_result w' false (kept p) = rw p (omega arith)
    at_result w' true (taken r f p) =
        let k = find-has_key v.key w.store.entries r f in
        rw p (unfold delete_entry in rw k (length-delete v.key w.store.entries r a.unique f))

pub evict-Evicts :
    (root : Bytes) (fails : Bytes → Bool) (stop : World → Victim → Bool) (w : World)
    (vs : List Victim)
    → Accounted w.store
    → Evicts w (evict root fails stop w vs)
unfolding evict
evict-Evicts root fails stop w [] a = record { accounted = a; fewer = omega arith }
evict-Evicts root fails stop w (v ∷ vs) a = elim (Bool-cases (stop w v)) [
  | inl s ↦ rw s (record { accounted = a; fewer = omega arith })
  | inr s ↦
      let a' = drop_gen-closed Accounted Accounted-Closed root (fails v.key) w v.key v.gen a in
      let d = drop_gen root (fails v.key) w v.key v.gen in
      let i = evict-Evicts root fails stop d.0 vs a' in
      elim (Bool-cases d.1) [
        | inl t ↦
            let o = one_less root (fails v.key) w v true t a in
            rw (s, t) (record { accounted = i.accounted; fewer = omega (arith, i.fewer, o) })
        | inr t ↦
            let o = one_less root (fails v.key) w v false t a in
            rw (s, t) (record { accounted = i.accounted; fewer = omega (arith, i.fewer, o) })
      ]
]

-- How a loop ends: by its test, or by a batch that takes nothing.
pub data Ended (stop : ℕ → World → Bool) (batch : World → Evicted) (w' : World) : Type 0 where
  by_test : (k : ℕ) → stop k w' ≡ true → Ended stop batch w'
  dry :
      (k : ℕ) (w : World)
      → Accounted w.store
      → stop k w ≡ false
      → (batch w).count ≡ 0
      → w' ≡ (batch w).world
      → Ended stop batch w'

-- With more fuel than entries a loop ends, in a store whose total is exact.
pub loop-Ended :
    (stop : ℕ → World → Bool) (batch : World → Evicted) (fuel k : ℕ) (w : World)
    → ((v : World) → Accounted v.store → Evicts v (batch v))
    → Accounted w.store
    → length w.store.entries < fuel
    → (w' : World) × (loop stop batch fuel k w ≡ some w') × Accounted w'.store × Ended stop batch w'
unfolding loop
loop-Ended stop batch zero k w h a l = absurd (omega arith)
loop-Ended stop batch (suc fuel) k w h a l = elim (Bool-cases (stop k w)) [
  | inl s ↦ (w, rw s refl, a, by_test k s)
  | inr s ↦
      let b = batch w in
      let v = h w a in
      elim (Bool-cases (b.count == 0)) [
        | inl z ↦ (b.world, rw (s, z) refl, v.accounted, dry k w a s (ground arith) refl)
        | inr z ↦
            let p : length b.world.store.entries < fuel = ground (arith, v.fewer) in
            let (w', e, a', d) = loop-Ended stop batch fuel (k + 1) b.world h v.accounted p in
            (w', rw (s, z) e, a', d)
      ]
]
