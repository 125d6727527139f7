-- ===== src/CacheSweep/Inactive.antt =====
-- sweepInactive of internal/worker/cache_sweep.go.
use indelible.Common.{
  ℕ, suc, ◌≤◌, ◌≡◌, refl, sym, subst, true, false, List, [], ◌∷◌, some, arith, leb, take, All,
  All-mono, Bytes, Bool-cases, inl, inr,
}
use indelible.DownloadCache.{Entry, World, Victim, victim, oldest, by_age, insert_victim}
use indelible.DownloadCache.Accounting.{Accounted}
use indelible.CacheSweep.{evict, evict_batch, is_fresh, rounds, sweep_inactive}
use indelible.CacheSweep.Loops.{evict-Evicts, Ended, by_test, dry, loop-Ended}
use indelible.CacheSweep.Budget.{Live, by_age-Live, evict-takes}

-- The first of some victims is the least recently read of some entries.
LeastFirst : List Victim → List Entry → Type 0
LeastFirst [] es = es ≡ []
LeastFirst (v ∷ vs) es = All (λ e. v.last_access ≤ e.last_access) es

insert_victim-LeastFirst :
    (r : Entry) (vs : List Victim) (es : List Entry)
    → LeastFirst vs es
    → LeastFirst (insert_victim (victim r) vs) (r ∷ es)
unfolding LeastFirst insert_victim
insert_victim-LeastFirst r [] es l =
    (omega arith, subst (All (λ e. r.last_access ≤ e.last_access)) (sym l) tt)
insert_victim-LeastFirst r (x ∷ xs) es l = elim (Bool-cases (leb r.last_access x.last_access)) [
  | inl h ↦ rw h (omega arith, All-mono es (λ e b. ground arith) l)
  | inr h ↦ rw h (ground arith, l)
]

by_age-LeastFirst : (es : List Entry) → LeastFirst (by_age es) es
unfolding by_age
by_age-LeastFirst [] = unfold LeastFirst in refl
by_age-LeastFirst (r ∷ es) = insert_victim-LeastFirst r (by_age es) es (by_age-LeastFirst es)

-- Every entry was read at the cutoff or later.
abbrev pub AllFresh : ℕ → World → Type 0
AllFresh cutoff w = All (λ e. cutoff ≤ e.last_access) w.store.entries

module _ (root : Bytes) (batch cutoff : ℕ) where
  -- A batch that takes nothing found only fresh entries, and changed nothing.
  dry-AllFresh :
      (w : World)
      → Accounted w.store
      → (evict_batch root (λ _. false) (suc batch) (some cutoff) w).count ≡ 0
      → AllFresh cutoff (evict_batch root (λ _. false) (suc batch) (some cutoff) w).world
  unfolding evict_batch evict oldest is_fresh LeastFirst
  dry-AllFresh w a =
      first (by_age w.store.entries) (by_age-Live w.store.entries a.unique)
        (by_age-LeastFirst w.store.entries)
    where
      first :
          (vs : List Victim)
          → All (Live w.store.entries) vs
          → LeastFirst vs w.store.entries
          → (evict root
              (λ _. false)
              (λ _ v. is_fresh (some cutoff) v)
              w
              (take (suc batch) vs)).count
            ≡ 0
          → AllFresh cutoff
              (evict root
                (λ _. false)
                (λ _ v. is_fresh (some cutoff) v)
                w
                (take (suc batch) vs)).world
      first [] l f z = subst (All (λ e. cutoff ≤ e.last_access)) (sym f) tt
      first (v ∷ vs) l f z = elim (Bool-cases (is_fresh (some cutoff) v)) [
        | inl h ↦
            let c : cutoff ≤ v.last_access = ground arith in
            rw h (All-mono w.store.entries (λ e b. omega (arith, b, c)) f)
        | inr h ↦
            absurd (evict-takes root (λ _ u. is_fresh (some cutoff) u) w v (take batch vs) h l.0 z)
      ]

-- Where no unlink fails, the context lives on, and a batch is not empty, the sweep over inactivity
-- ends, in a store whose total is exact and whose entries were all read at the cutoff or later.
pub sweep_inactive-AllFresh :
    (root : Bytes) (batch cutoff : ℕ) (w : World)
    → Accounted w.store
    → (w' : World) × (sweep_inactive root (λ _. false) (λ _. true) (suc batch) cutoff w ≡ some w')
      × Accounted w'.store
      × AllFresh cutoff w'
unfolding sweep_inactive
sweep_inactive-AllFresh root batch cutoff w a =
    let body = evict_batch root (λ _. false) (suc batch) (some cutoff) in
    let (w', e, a', d) =
      loop-Ended (λ _ _. false) body (rounds w) 0 w
        (λ v x.
          unfold evict_batch in
          evict-Evicts root (λ _. false) (λ _ u. is_fresh (some cutoff) u) v
            (oldest v.store (suc batch)) x)
        a (omega arith) in
    (w', e, a', at_end w' d)
  where
    at_end :
        (w' : World)
        → Ended (λ _ _. false) (evict_batch root (λ _. false) (suc batch) (some cutoff)) w'
        → AllFresh cutoff w'
    at_end w' (by_test k s) = absurd (ground arith)
    at_end w' (dry k v x s z e) =
        subst (AllFresh cutoff) (sym e) (dry-AllFresh root batch cutoff v x z)
