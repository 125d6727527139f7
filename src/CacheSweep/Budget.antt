-- ===== src/CacheSweep/Budget.antt =====
-- sweepBudget of internal/worker/cache_sweep.go.
use indelible.Common.{
  ℕ, suc, ◌≤◌, ◌≡◌, ◌≢◌, refl, sym, ap, subst, ◌∙◌, Bool, true, false, List, [], ◌∷◌, none, some,
  arith, ◌==◌, leb, take, find, any, All, All-mono, Bytes, bytes_eq, bytes_eq_iff, bytes_eq_refl,
  Bool-cases, inl, inr, ok,
}
use indelible.Common.Joins.{is_empty}
use indelible.DownloadCache.{
  Entry, File, World, at, Victim, victim, has_key, drop_gen, unlink_locked, remove, path_of,
  key_valid, oldest, by_age, insert_victim,
}
use indelible.DownloadCache.Accounting.{Accounted, UniqueKeys, total}
use indelible.CacheSweep.{evict, evict_batch_to_bytes, rounds, budget_target, sweep_budget}
use indelible.CacheSweep.Loops.{evict-Evicts, Ended, by_test, dry, loop-Ended}

-- A victim of which the store has the promotion.
pub record Live (es : List Entry) (v : Victim) : Type 0 where
  pub entry : Entry
  pub found : find (has_key v.key) es ≡ some entry
  pub same : entry.gen ≡ v.gen

find-none : (p : Entry → Bool) (es : List Entry) → any p es ≡ false → find p es ≡ none
find-none p [] h = refl
find-none p (e ∷ es) h = let n : p e ≡ false = ground arith in rw n (find-none p es (ground arith))

Live-cons :
    (r : Entry) (es : List Entry) (v : Victim)
    → any (has_key r.key) es ≡ false
    → Live es v
    → Live (r ∷ es) v
Live-cons r es v n l = elim (Bool-cases (bytes_eq r.key v.key)) [
  | inl e ↦
      let k = (bytes_eq_iff r.key v.key).0 e in
      let none_left = find-none (has_key v.key) es (subst (λ x. any (has_key x) es ≡ false) k n) in
      let y : none ≡ some l.entry = sym none_left ∙ l.found in absurd (cc)
  | inr e ↦ record { entry = l.entry; found = rw e l.found; same = l.same }
]

All-insert_victim :
    (P : Victim → Type 0) (v : Victim) (vs : List Victim)
    → P v
    → All P vs
    → All P (insert_victim v vs)
unfolding insert_victim
All-insert_victim P v [] p a = (p, tt)
All-insert_victim P v (x ∷ xs) p a = elim (Bool-cases (leb v.last_access x.last_access)) [
  | inl e ↦ rw e (p, a)
  | inr e ↦ rw e (a.0, All-insert_victim P v xs p a.1)
]

pub by_age-Live : (es : List Entry) → UniqueKeys es → All (Live es) (by_age es)
unfolding by_age UniqueKeys
by_age-Live [] u = tt
by_age-Live (r ∷ es) u =
    All-insert_victim (Live (r ∷ es)) (victim r) (by_age es)
      (record { entry = r; found = rw (bytes_eq_refl r.key) refl; same = refl })
      (All-mono (by_age es) (λ v l. Live-cons r es v u.0 l) (by_age-Live es u.1))

unlink_locked-ok :
    (root : Bytes) (disk : List File) (key : Bytes)
    → (b : Bool) × ((unlink_locked root false disk key).1 ≡ ok b)
unfolding unlink_locked remove
unlink_locked-ok root disk key = elim (Bool-cases (key_valid key)) [
  | inr v ↦ (false, rw v refl)
  | inl v ↦ elim (Bool-cases (any (at (path_of root key)) disk)) [
    | inl a ↦ (true, rw (v, a) refl)
    | inr a ↦ (false, rw (v, a) refl)
  ]
]

-- The unlink that does not fail takes a live victim.
pub drop_gen-Live :
    (root : Bytes) (w : World) (v : Victim)
    → Live w.store.entries v
    → (drop_gen root false w v.key v.gen).1 ≡ true
unfolding drop_gen
drop_gen-Live root w v l =
    let g : (l.entry.gen == v.gen) ≡ true = let s = l.same in ground arith in
    let (b, u) = unlink_locked-ok root w.disk v.key in rw (l.found, g, u, drop_gen) refl

insert_victim-filled : (v : Victim) (vs : List Victim) → is_empty (insert_victim v vs) ≡ false
unfolding insert_victim
insert_victim-filled v [] = refl
insert_victim-filled v (x ∷ xs) = ground arith

-- No victims, no bytes.
total-by_age : (es : List Entry) → by_age es ≡ [] → total es ≡ 0
unfolding by_age
total-by_age [] e = refl
total-by_age (r ∷ es) e =
    let y = ap is_empty (sym e) ∙ insert_victim-filled (victim r) (by_age es) in
    absurd (ground arith)

-- A batch over live victims that its test lets begin takes one.
pub evict-takes :
    (root : Bytes) (stop : World → Victim → Bool) (w : World) (v : Victim) (vs : List Victim)
    → stop w v ≡ false
    → Live w.store.entries v
    → (evict root (λ _. false) stop w (v ∷ vs)).count ≢ 0
unfolding evict
evict-takes root stop w v vs s l = rw (s, drop_gen-Live root w v l) (λ e. absurd (omega arith))

module _ (root : Bytes) (batch target : ℕ) where
  -- While the total is above the target a batch takes something.
  to_bytes-takes :
      (w : World)
      → Accounted w.store
      → leb w.store.bytes target ≡ false
      → (evict_batch_to_bytes root (λ _. false) (suc batch) target w).count ≢ 0
  unfolding evict_batch_to_bytes oldest
  to_bytes-takes w a h = first (by_age w.store.entries) refl (by_age-Live w.store.entries a.unique)
    where
      first :
          (vs : List Victim)
          → by_age w.store.entries ≡ vs
          → All (Live w.store.entries) vs
          → (evict root
              (λ _. false)
              (λ w' _. leb w'.store.bytes target)
              w
              (take (suc batch) vs)).count
            ≢ 0
      first [] e l =
          let z = total-by_age w.store.entries e in let x = a.exact in absurd (ground arith)
      first (v ∷ vs) e l =
          evict-takes root (λ w' _. leb w'.store.bytes target) w v (take batch vs) h l.0

-- Where no unlink fails, the context lives on, and a batch is not empty, the sweep over the budget
-- ends, in a store whose total is exact and at most the target: the budget less its headroom.
pub sweep_budget-le :
    (root : Bytes) (batch budget max_object : ℕ) (w : World)
    → Accounted w.store
    → (w' : World) × (sweep_budget root (λ _. false) (λ _. true) (suc batch) budget max_object w
        ≡ some w')
      × Accounted w'.store
      × (w'.store.bytes ≤ budget_target budget max_object)
unfolding sweep_budget
sweep_budget-le root batch budget max_object w a =
    let target = budget_target budget max_object in
    let stop : ℕ → World → Bool = λ _ v. leb v.store.bytes target in
    let body = evict_batch_to_bytes root (λ _. false) (suc batch) target in
    let (w', e, a', d) =
      loop-Ended stop body (rounds w) 0 w
        (λ v x.
          unfold evict_batch_to_bytes in
          evict-Evicts root (λ _. false) (λ u _. leb u.store.bytes target) v
            (oldest v.store (suc batch)) x)
        a (omega arith) in
    (w', e, a', at_end w' d)
  where
    at_end :
        (w' : World)
        → Ended
            (λ _ v. leb v.store.bytes (budget_target budget max_object))
            (evict_batch_to_bytes root (λ _. false) (suc batch) (budget_target budget max_object))
            w'
        → w'.store.bytes ≤ budget_target budget max_object
    at_end w' (by_test k s) = ground arith
    at_end w' (dry k v x s z e) =
        absurd (to_bytes-takes root batch (budget_target budget max_object) v x s z)
