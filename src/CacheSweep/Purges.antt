-- ===== src/CacheSweep/Purges.antt =====
-- The loop of propagatePurges, internal/worker/cache_sweep.go, over one read of the purge log.
use indelible.Common.{
  ℕ, ◌≤◌, ◌<◌, ◌≡◌, ◌⊎◌, refl, sym, subst, Bool, true, false, not, List, [], ◌∷◌, arith,
  if◌then◌else◌, any, find, All, All-mono, Bytes, Bool-cases, Option-cases, inl, inr,
}
use indelible.Common.Sql.{delete}
use indelible.Token.{is_null}
use indelible.Upload.Row.{PurgeLogEntry}
use indelible.DownloadCache.{Entry, World, has_key, drop, delete_entry, unlink_locked}
use indelible.DownloadCache.Closure.{Result-cases}
use indelible.CacheSweep.{apply_purges}
use indelible.CacheSweep.Reconcile.{drop-others}

-- The ids go up, from above a mark.
abbrev pub Ascending : ℕ → List PurgeLogEntry → Type 0
Ascending mark [] = Unit {0}
Ascending mark (e ∷ es) = (mark < e.id) × Ascending e.id es

pub Ascending-above :
    (mark m : ℕ) (es : List PurgeLogEntry) → mark ≤ m → Ascending m es → All (λ e. mark < e.id) es
Ascending-above mark m [] l a = tt
Ascending-above mark m (e ∷ es) l a =
    (omega (arith, a.0, l), Ascending-above mark e.id es (omega (arith, a.0, l)) a.1)

-- The cache has no entry of a key.
abbrev pub gone : Bytes → World → Bool
gone key w = not (any (has_key key) w.store.entries)

-- An entry of the log is past the mark, or its key is gone.
abbrev pub Applied : ℕ → World → PurgeLogEntry → Type 0
Applied mark w e = (mark < e.id) ⊎ (gone e.cache_key w ≡ true)

any-All :
    (key : Bytes) (es : List Entry)
    → All (λ e. has_key key e ≡ false) es
    → any (has_key key) es ≡ false
any-All key [] a = refl
any-All key (e ∷ es) a = rw a.0 (any-All key es a.1)

All-any :
    (key : Bytes) (es : List Entry)
    → any (has_key key) es ≡ false
    → All (λ e. has_key key e ≡ false) es
All-any key [] a = tt
All-any key (e ∷ es) a = (ground arith, All-any key es (ground arith))

All-delete_one :
    (P : Entry → Type 0) (q : Entry → Bool) (es : List Entry) → All P es → All P (delete q es)
All-delete_one P q [] a = tt
All-delete_one P q (e ∷ es) a = elim (Bool-cases (q e)) [
  | inl h ↦ rw h (All-delete_one P q es a.1)
  | inr h ↦ rw h (a.0, All-delete_one P q es a.1)
]

-- A drop brings no key back, whether it fails or not.
gone-drop :
    (root : Bytes) (fails : Bool) (w : World) (k key : Bytes)
    → gone key w ≡ true
    → gone key (drop root fails w k).0 ≡ true
unfolding drop delete_entry
gone-drop root fails w k key g =
    let a = All-any key w.store.entries (ground arith) in
    elim (Result-cases (unlink_locked root fails w.disk k).1) [
      | inr (x, r) ↦ rw (r, drop) g
      | inl (b, r) ↦ elim (Option-cases (find (has_key k) w.store.entries)) [
        | inl f ↦ rw (r, f, drop) g
        | inr (e, f) ↦
            rw (r, f, drop)
              (rw
                (any-All key (delete (has_key e.key) w.store.entries)
                  (All-delete_one _ (has_key e.key) w.store.entries a))
                refl)
      ]
    ]

module _ (root : Bytes) (fails : Bytes → Bool) where
  pub gone-apply_purges :
      (mark : ℕ) (stalled : Bool) (w : World) (es : List PurgeLogEntry) (key : Bytes)
      → gone key w ≡ true
      → gone key (apply_purges root fails mark stalled w es).2 ≡ true
  unfolding apply_purges
  gone-apply_purges mark stalled w [] key g = g
  gone-apply_purges mark stalled w (e ∷ es) key g =
      let d = drop root (fails e.cache_key) w e.cache_key in
      let g' = gone-drop root (fails e.cache_key) w e.cache_key key g in
      elim (Bool-cases (is_null d.1)) [
        | inl n ↦ rw n (gone-apply_purges (if stalled then mark else e.id) stalled d.0 es key g')
        | inr n ↦ rw n (gone-apply_purges mark true d.0 es key g')
      ]

  pub stalled-mark :
      (mark : ℕ) (w : World) (es : List PurgeLogEntry)
      → (apply_purges root fails mark true w es).0 ≡ mark
  unfolding apply_purges
  stalled-mark mark w [] = refl
  stalled-mark mark w (e ∷ es) =
      let d = drop root (fails e.cache_key) w e.cache_key in
      elim (Bool-cases (is_null d.1)) [
        | inl n ↦ rw n (stalled-mark mark d.0 es)
        | inr n ↦ rw n (stalled-mark mark d.0 es)
      ]

  pub apply-dropped :
      (mark : ℕ) (w : World) (e : PurgeLogEntry) (es : List PurgeLogEntry)
      → is_null (drop root (fails e.cache_key) w e.cache_key).1 ≡ true
      → apply_purges root fails mark false w (e ∷ es)
        ≡ apply_purges root fails e.id false (drop root (fails e.cache_key) w e.cache_key).0 es
  unfolding apply_purges
  apply-dropped mark w e es n = rw n refl

  pub apply-stuck :
      (mark : ℕ) (w : World) (e : PurgeLogEntry) (es : List PurgeLogEntry)
      → is_null (drop root (fails e.cache_key) w e.cache_key).1 ≡ false
      → apply_purges root fails mark false w (e ∷ es)
        ≡ apply_purges root fails mark true (drop root (fails e.cache_key) w e.cache_key).0 es
  unfolding apply_purges
  apply-stuck mark w e es n = rw n refl

  -- Of a read of the purge log with ascending ids above the mark, every entry up to the new mark has
  -- its key gone from the cache, whichever unlinks fail.
  pub apply_purges-Applied :
      (mark : ℕ) (w : World) (es : List PurgeLogEntry)
      → Ascending mark es
      → All
          (Applied
            (apply_purges root fails mark false w es).0
            (apply_purges root fails mark false w es).2)
          es
  apply_purges-Applied mark w [] a = tt
  apply_purges-Applied mark w (e ∷ es) a =
      let d = drop root (fails e.cache_key) w e.cache_key in
      elim (Bool-cases (is_null d.1)) [
        | inl n ↦
            let o =
              drop-others (λ _. Unit {0}) root (fails e.cache_key) w e.cache_key n
                (everything w.store.entries) in
            let absent = All-mono d.0.store.entries (λ r h. h.1) o in
            let g : gone e.cache_key d.0 ≡ true =
              rw (any-All e.cache_key d.0.store.entries absent) refl in
            subst (λ r. All (Applied r.0 r.2) (e ∷ es)) (sym (apply-dropped mark w e es n))
              (
                inr (gone-apply_purges e.id false d.0 es e.cache_key g),
                apply_purges-Applied e.id d.0 es a.1,
              )
        | inr n ↦
            subst (λ r. All (Applied r.0 r.2) (e ∷ es)) (sym (apply-stuck mark w e es n))
              (subst (λ m. All (Applied m (apply_purges root fails mark true d.0 es).2) (e ∷ es))
                (sym (stalled-mark mark d.0 es))
                (
                  inl a.0,
                  All-mono es (λ r h. inl h)
                      (Ascending-above mark e.id es (omega (arith, a.0)) a.1),
                ))
      ]
    where
      everything : (rs : List Entry) → All (λ _. Unit {0}) rs
      everything [] = tt
      everything (r ∷ rs) = (tt, everything rs)
