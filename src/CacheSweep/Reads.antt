-- ===== src/CacheSweep/Reads.antt =====
-- One read of the purge log by propagatePurges, internal/worker/cache_sweep.go, and its mark.
use indelible.Common.{
  ℕ, zero, suc, ◌≤◌, ◌<◌, ◌≡◌, ◌⊎◌, refl, sym, ap, subst, ◌∙◌, Bool, true, false, List, [], ◌∷◌,
  ◌++◌, arith, ltb, if◌then◌else◌, length, take, keep, All, All-mono, Bytes, Bool-cases, inl, inr,
}
use indelible.Token.{is_null}
use indelible.Upload.Row.{PurgeLogEntry}
use indelible.DownloadCache.{World, drop}
use indelible.CacheSweep.{apply_purges}
use indelible.CacheSweep.Purges.{
  Ascending, Ascending-above, stalled-mark, apply-dropped, apply-stuck,
}

abbrev pub above : ℕ → List PurgeLogEntry → List PurgeLogEntry
above mark log = keep (λ e. ltb mark e.id) log

-- The entries that a read does not take.
abbrev pub untaken : ℕ → List PurgeLogEntry → List PurgeLogEntry
untaken zero es = es
untaken (suc n) [] = []
untaken (suc n) (e ∷ es) = untaken n es

pub take-untaken : (n : ℕ) (es : List PurgeLogEntry) → (take n es ++ untaken n es) ≡ es
take-untaken zero es = refl
take-untaken (suc n) [] = refl
take-untaken (suc n) (e ∷ es) = ap (λ l. e ∷ l) (take-untaken n es)

pub Ascending-keep :
    (mark lo m : ℕ) (log : List PurgeLogEntry)
    → (m ≤ lo) ⊎ (m ≤ mark)
    → Ascending lo log
    → Ascending m (above mark log)
Ascending-keep mark lo m [] l a = tt
Ascending-keep mark lo m (e ∷ es) l a =
    let b = a.0 in
    elim (Bool-cases (ltb mark e.id)) [
      | inl h ↦ rw h (
        (let k : mark < e.id = ground arith in
            elim l [ inl x ↦ omega (arith, x, b) | inr x ↦ omega (arith, x, k) ]),
        Ascending-keep mark e.id e.id es (inl (omega arith)) a.1,
      )
      | inr h ↦ rw h (
          Ascending-keep mark e.id m es
            (elim l [ inl x ↦ inl (omega (arith, x, b)) | inr x ↦ inr x ]) a.1)
    ]

pub Ascending-prefix :
    (m : ℕ) (es rest : List PurgeLogEntry) → Ascending m (es ++ rest) → Ascending m es
Ascending-prefix m [] rest a = tt
Ascending-prefix m (e ∷ es) rest a = (a.0, Ascending-prefix e.id es rest a.1)

Ascending-suffix :
    (m : ℕ) (es rest : List PurgeLogEntry) → Ascending m (es ++ rest) → All (λ e. m < e.id) rest
Ascending-suffix m [] rest a = Ascending-above m m rest (omega arith) a
Ascending-suffix m (e ∷ es) rest a =
    All-mono rest (λ r h. let b = a.0 in omega (arith, h, b)) (Ascending-suffix e.id es rest a.1)

-- A mark that has not gone down leaves fewer entries above it.
above-above : (m m' : ℕ) (log : List PurgeLogEntry) → m ≤ m' → above m' log ≡ above m' (above m log)
above-above m m' [] l = refl
above-above m m' (e ∷ es) l =
    let i = above-above m m' es l in
    elim (Bool-cases (ltb m e.id)) [
      | inl h ↦ elim (Bool-cases (ltb m' e.id)) [
        | inl k ↦ rw (h, k) (ap (λ x. e ∷ x) i)
        | inr k ↦ rw (h, k) i
      ]
      | inr h ↦ let k : ltb m' e.id ≡ false = ground arith in rw (h, k) i
    ]

pub length-above : (m : ℕ) (log : List PurgeLogEntry) → length (above m log) ≤ length log
length-above m [] = omega arith
length-above m (e ∷ es) =
    let i = length-above m es in
    elim (Bool-cases (ltb m e.id)) [
      | inl h ↦ rw h (omega (arith, i))
      | inr h ↦ rw h (omega (arith, i))
    ]

pub above-shrinks :
    (m m' : ℕ) (log : List PurgeLogEntry) (e : PurgeLogEntry) (es : List PurgeLogEntry)
    → m ≤ m'
    → above m log ≡ (e ∷ es)
    → e.id ≤ m'
    → length (above m' log) < length (above m log)
above-shrinks m m' log e es l h k =
    let n : ltb m' e.id ≡ false = ground arith in
    let i = length-above m' es in rw (above-above m m' log l, h, n) (omega (arith, i))

-- What holds of the entries above a mark, and of the log.
pub below_or :
    (P : PurgeLogEntry → Type 0) (m : ℕ) (log : List PurgeLogEntry)
    → All P (above m log)
    → All (λ e. (e.id ≤ m) ⊎ P e) log
below_or P m [] a = tt
below_or P m (e ∷ es) a = split (ltb m e.id) refl (above m es) a (below_or P m es)
  where
    split :
        (b : Bool)
        → ltb m e.id ≡ b
        → (rest : List PurgeLogEntry) → All P (if b then e ∷ rest else rest)
        → (All P rest → All (λ x. (x.id ≤ m) ⊎ P x) es)
        → All (λ x. (x.id ≤ m) ⊎ P x) (e ∷ es)
    split true h rest x f = (inr x.0, f x.1)
    split false h rest x f = (inl (ground arith), f x)

module _ (root : Bytes) (fails : Bytes → Bool) where
  stays-stalled :
      (mark : ℕ) (w : World) (es : List PurgeLogEntry)
      → (apply_purges root fails mark true w es).1 ≡ true
  unfolding apply_purges
  stays-stalled mark w [] = refl
  stays-stalled mark w (e ∷ es) =
      let d = drop root (fails e.cache_key) w e.cache_key in
      elim (Bool-cases (is_null d.1)) [
        | inl n ↦ rw n (stays-stalled mark d.0 es)
        | inr n ↦ rw n (stays-stalled mark d.0 es)
      ]

  -- The mark goes up, and not past what was not read.
  pub apply-mark :
      (mark : ℕ) (w : World) (es rest : List PurgeLogEntry)
      → Ascending mark (es ++ rest)
      → (mark ≤ (apply_purges root fails mark false w es).0)
        × All (λ e. (apply_purges root fails mark false w es).0 < e.id) rest
  unfolding apply_purges
  apply-mark mark w [] rest a = (omega arith, Ascending-suffix mark [] rest a)
  apply-mark mark w (e ∷ es) rest a =
      let d = drop root (fails e.cache_key) w e.cache_key in
      let b = a.0 in
      elim (Bool-cases (is_null d.1)) [
        | inl n ↦
            let i = apply-mark e.id d.0 es rest a.1 in
            let l = i.0 in rw (apply-dropped root fails mark w e es n) (omega (arith, b, l), i.1)
        | inr n ↦
            rw (apply-stuck root fails mark w e es n, stalled-mark root fails mark d.0 es)
              (omega arith, Ascending-suffix mark (e ∷ es) rest a)
      ]

  -- A round that is not stalled passes its first entry.
  pub apply-first :
      (mark : ℕ) (w : World) (e : PurgeLogEntry) (es : List PurgeLogEntry)
      → Ascending mark (e ∷ es)
      → (apply_purges root fails mark false w (e ∷ es)).1 ≡ false
      → e.id ≤ (apply_purges root fails mark false w (e ∷ es)).0
  apply-first mark w e es a h =
      let d = drop root (fails e.cache_key) w e.cache_key in
      elim (Bool-cases (is_null d.1)) [
        | inl n ↦
            let i = apply-mark e.id d.0 es [] (subst (Ascending e.id) (sym (append-nil es)) a.1) in
            rw (apply-dropped root fails mark w e es n) i.0
        | inr n ↦
            let y : true ≡ false =
              sym (stays-stalled mark d.0 es)
              ∙ sym (ap (λ r. r.1) (apply-stuck root fails mark w e es n))
              ∙ h in
            absurd (cc)
      ]
    where
      append-nil : (xs : List PurgeLogEntry) → (xs ++ []) ≡ xs
      append-nil [] = refl
      append-nil (x ∷ xs) = ap (λ l. x ∷ l) (append-nil xs)
