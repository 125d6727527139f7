-- ===== src/CacheSweep/Reconcile.antt =====
-- reconcile of internal/worker/cache_sweep.go.
use indelible.Common.{
  ℕ, zero, suc, ◌≡◌, refl, sym, ap, subst, ◌∙◌, Bool, true, false, ◌||◌, List, [], ◌∷◌, none, some,
  arith, ◌==◌, leb, length, take, find, any, All, All-mono, Bytes, bytes_eq, bytes_eq_iff,
  bytes_eq_refl, Bool-cases, Option-cases, inl, inr,
}
use indelible.Common.Sql.{delete}
use indelible.Token.{is_null}
use indelible.Upload.Row.{Upload, PurgeLogEntry}
use indelible.Upload.Removal.{cache_key_visibility}
use indelible.DownloadCache.{
  Entry, World, Victim, victim, has_key, drop, delete_entry, unlink_locked, oldest, by_age,
  insert_victim,
}
use indelible.DownloadCache.Closure.{Result-cases}
use indelible.DownloadCache.Accounting.{find-has_key}
use indelible.CacheSweep.{Sweeper, is_kept, purge_orphans, reconcile}

-- The entries that a successful drop leaves: those of other keys.
module _ (P : Entry → Type 0) where
  absent :
      (key : Bytes) (es : List Entry)
      → find (has_key key) es ≡ none
      → All P es
      → All (λ e. P e × (has_key key e ≡ false)) es
  absent key [] f a = tt
  absent key (r ∷ es) f a = elim (Bool-cases (has_key key r)) [
    | inl h ↦ let y : some r ≡ none = rw (← f) (rw h refl) in absurd (cc)
    | inr h ↦ ((a.0, h), absent key es (rw (← f) (rw h refl)) a.1)
  ]

  deleted :
      (key : Bytes) (es : List Entry)
      → All P es
      → All (λ e. P e × (has_key key e ≡ false)) (delete (has_key key) es)
  deleted key [] a = tt
  deleted key (r ∷ es) a = elim (Bool-cases (has_key key r)) [
    | inl h ↦ rw h (deleted key es a.1)
    | inr h ↦ rw h ((a.0, h), deleted key es a.1)
  ]

  pub drop-others :
      (root : Bytes) (fails : Bool) (w : World) (key : Bytes)
      → is_null (drop root fails w key).1 ≡ true
      → All P w.store.entries
      → All (λ e. P e × (has_key key e ≡ false)) (drop root fails w key).0.store.entries
  unfolding drop delete_entry
  drop-others root fails w key n a = elim (Result-cases (unlink_locked root fails w.disk key).1) [
    | inr (x, r) ↦ let y : false ≡ true = rw (← n) (rw (r, drop) refl) in absurd (ground arith)
    | inl (b, r) ↦ elim (Option-cases (find (has_key key) w.store.entries)) [
      | inl f ↦ rw (r, f, drop) (absent key w.store.entries f a)
      | inr (e, f) ↦
          let k = find-has_key key w.store.entries e f in
          rw (r, f, drop) (rw k (deleted key w.store.entries a))
    ]
  ]

-- The entries that stay are of a live row that may be cached.
abbrev pub AllKept : List Upload → Bool → World → Type 0
AllKept us private_allowed w =
    All (λ e. is_kept private_allowed (cache_key_visibility us e.key) ≡ true) w.store.entries

abbrev names : List Victim → Entry → Bool
names vs e = any (λ v. bytes_eq e.key v.key) vs

module _ (root : Bytes) (fails : Bytes → Bool) (us : List Upload) (private_allowed : Bool) where
  abbrev kept : Bytes → Bool
  kept key = is_kept private_allowed (cache_key_visibility us key)

  purge_orphans-AllKept :
      (w : World) (vs : List Victim)
      → All (λ e. (kept e.key || names vs e) ≡ true) w.store.entries
      → (purge_orphans root fails us private_allowed w vs).1 ≡ 0
      → AllKept us private_allowed (purge_orphans root fails us private_allowed w vs).0
  unfolding purge_orphans
  purge_orphans-AllKept w [] a z = All-mono w.store.entries (λ e h. ground arith) a
  purge_orphans-AllKept w (v ∷ vs) a z = elim (Bool-cases (kept v.key)) [
    | inl k ↦
        let a' = All-mono w.store.entries (λ e h. still e v vs k h) a in
        rw k (purge_orphans-AllKept w vs a' (rw (← z) (rw k refl)))
    | inr k ↦
        let d = drop root (fails v.key) w v.key in
        elim (Bool-cases (is_null d.1)) [
          | inr n ↦
              let y : suc (purge_orphans root fails us private_allowed d.0 vs).1 ≡ 0 =
                rw (← z) (rw (k, n) refl) in
              absurd (omega (arith, y))
          | inl n ↦
              let b =
                drop-others (λ e. (kept e.key || names (v ∷ vs) e) ≡ true) root (fails v.key) w
                  v.key n a in
              let a' = All-mono d.0.store.entries (λ e h. let (x, y) = h in ground arith) b in
              rw (k, n) (purge_orphans-AllKept d.0 vs a' (rw (← z) (rw (k, n) refl)))
        ]
  ]
    where
      still :
          (e : Entry) (v : Victim) (vs : List Victim)
          → kept v.key ≡ true
          → (kept e.key || names (v ∷ vs) e) ≡ true
          → (kept e.key || names vs e) ≡ true
      still e v vs k h = elim (Bool-cases (bytes_eq e.key v.key)) [
        | inl s ↦ let p = (bytes_eq_iff e.key v.key).0 s in rw p (ground arith)
        | inr s ↦ ground arith
      ]

any-insert_victim :
    (p : Victim → Bool) (v : Victim) (vs : List Victim)
    → any p (insert_victim v vs) ≡ (p v || any p vs)
unfolding insert_victim
any-insert_victim p v [] = refl
any-insert_victim p v (x ∷ xs) =
    let i = any-insert_victim p v xs in
    elim (Bool-cases (leb v.last_access x.last_access)) [
      | inl h ↦ rw h refl
      | inr h ↦ rw h (ground arith)
    ]

length-insert_victim :
    (v : Victim) (vs : List Victim) → length (insert_victim v vs) ≡ suc (length vs)
unfolding insert_victim
length-insert_victim v [] = refl
length-insert_victim v (x ∷ xs) =
    let i = length-insert_victim v xs in
    elim (Bool-cases (leb v.last_access x.last_access)) [
      | inl h ↦ rw h refl
      | inr h ↦ rw h (omega (arith, i))
    ]

length-by_age : (es : List Entry) → length (by_age es) ≡ length es
unfolding by_age
length-by_age [] = refl
length-by_age (e ∷ es) =
    let i = length-by_age es in
    let j = length-insert_victim (victim e) (by_age es) in omega (arith, i, j)

take-all : (n : ℕ) (vs : List Victim) → length vs ≡ n → take n vs ≡ vs
take-all zero [] h = refl
take-all zero (v ∷ vs) h = absurd (omega arith)
take-all (suc n) [] h = refl
take-all (suc n) (v ∷ vs) h = ap (λ l. v ∷ l) (take-all n vs (omega arith))

names-by_age : (es : List Entry) → All (λ e. names (by_age es) e ≡ true) es
unfolding by_age
names-by_age [] = tt
names-by_age (r ∷ es) = (
  any-insert_victim (λ v. bytes_eq r.key v.key) (victim r) (by_age es)
      ∙ (rw (bytes_eq_refl r.key) refl),
  All-mono es
      (λ e h.
        let i = any-insert_victim (λ v. bytes_eq e.key v.key) (victim r) (by_age es) in
        ground arith)
      (names-by_age es),
)

-- A reconciliation that reports itself clean leaves in the cache only keys of live upload rows, whose
-- visibility is public, or private where private caching is allowed.
pub reconcile-AllKept :
    (root : Bytes) (fails : Bytes → Bool) (st : Sweeper) (log : List PurgeLogEntry)
    (us : List Upload) (private_allowed : Bool) (w : World)
    → (reconcile root fails st log us private_allowed w).2 ≡ true
    → AllKept us private_allowed (reconcile root fails st log us private_allowed w).1
unfolding reconcile oldest
reconcile-AllKept root fails st log us private_allowed w clean =
    let es = w.store.entries in
    let all_victims = take-all (length es) (by_age es) (length-by_age es) in
    elim (Bool-cases (length es == 0)) [
      | inl z ↦ rw z (none_left es (ground arith))
      | inr z ↦
          let stuck =
            (purge_orphans root fails us private_allowed w (take (length es) (by_age es))).1 in
          let y : (stuck == 0) ≡ true = rw (← clean) (rw z refl) in
          rw z (
            purge_orphans-AllKept root fails us private_allowed w (take (length es) (by_age es))
              (subst
                (λ l. All (λ e. (kept root fails us private_allowed e.key || names l e) ≡ true) es)
                (sym all_victims) (All-mono es (λ e h. ground arith) (names-by_age es)))
              (ground arith))
    ]
  where
    none_left :
        (es : List Entry)
        → length es ≡ 0
        → All (λ e. is_kept private_allowed (cache_key_visibility us e.key) ≡ true) es
    none_left [] h = tt
    none_left (e ∷ es) h = absurd (omega arith)
