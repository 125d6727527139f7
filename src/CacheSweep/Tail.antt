-- ===== src/CacheSweep/Tail.antt =====
-- The reads of the purge log, one after the other, by propagatePurges, internal/worker/cache_sweep.go.
use indelible.Common.{
  ℕ, zero, suc, ◌≤◌, ◌<◌, ◌≡◌, ◌⊎◌, refl, sym, ap, subst, Bool, true, false, ◌||◌, List, [], ◌∷◌,
  Option, some, arith, ltb, length, take, All, All-mono, All-append, Bytes, Bool-cases, inl, inr,
}
use indelible.Common.Joins.{is_empty}
use indelible.Upload.Row.{PurgeLogEntry}
use indelible.DownloadCache.{World}
use indelible.CacheSweep.{apply_purges, consume_tail}
use indelible.CacheSweep.Purges.{Ascending, Applied, gone, gone-apply_purges, apply_purges-Applied}
use indelible.CacheSweep.Reads.{
  apply-mark, apply-first, above, untaken, take-untaken, Ascending-keep, Ascending-prefix,
  length-above, above-shrinks, below_or,
}

-- The reading from a mark on ended, with a mark that is no lower; of the log, what is not above the
-- first mark aside, every entry is above the new one or has its key gone; and no key came back.
pub record Consumed (log : List PurgeLogEntry) (mark : ℕ) (w : World) (o : Option (ℕ × World))
    : Type 0 where
  pub mark' : ℕ
  pub world : World
  pub ends : o ≡ some (mark', world)
  pub later : mark ≤ mark'
  pub applied : All (λ e. (e.id ≤ mark) ⊎ Applied mark' world e) log
  pub still_gone : (key : Bytes) → gone key w ≡ true → gone key world ≡ true

module _ (root : Bytes) (fails : Bytes → Bool) (batch : ℕ) (log : List PurgeLogEntry) where
  -- One read, all of the log considered.
  round-Applied :
      (lo mark : ℕ) (w : World)
      → Ascending lo log
      → let r = apply_purges root fails mark false w (take (suc batch) (above mark log)) in
        (mark ≤ r.0) × All (λ e. (e.id ≤ mark) ⊎ Applied r.0 r.2 e) log
  round-Applied lo mark w a =
      let es = take (suc batch) (above mark log) in
      let rest = untaken (suc batch) (above mark log) in
      let r = apply_purges root fails mark false w es in
      let whole = take-untaken (suc batch) (above mark log) in
      let up =
        subst (Ascending mark) (sym whole)
          (Ascending-keep mark lo mark log (inr (omega arith)) a) in
      let (l, past) = apply-mark root fails mark w es rest up in
      let first = apply_purges-Applied root fails mark w es (Ascending-prefix mark es rest up) in
      (
        l,
        below_or (Applied r.0 r.2) mark log (
            subst (All (Applied r.0 r.2)) whole
              (All-append (Applied r.0 r.2) es rest first (All-mono rest (λ e h. inl h) past))),
      )

  -- A read that takes something and is not stalled leaves fewer entries above the mark.
  round-shrinks :
      (mark : ℕ) (w : World) (xs : List PurgeLogEntry)
      → above mark log ≡ xs
      → is_empty (take (suc batch) xs) ≡ false
      → Ascending mark xs
      → let r = apply_purges root fails mark false w (take (suc batch) xs) in
        mark ≤ r.0 → r.1 ≡ false → length (above r.0 log) < length (above mark log)
  round-shrinks mark w [] e n a l s = absurd (cc)
  round-shrinks mark w (x ∷ xs) e n a l s =
      above-shrinks mark (apply_purges root fails mark false w (x ∷ take batch xs)).0 log x xs l e (
        apply-first root fails mark w x (take batch xs)
          (Ascending-prefix mark (x ∷ take batch xs) (untaken batch xs)
            (subst (Ascending mark) (ap (λ t. x ∷ t) (sym (take-untaken batch xs))) a))
          s)

  nothing_above : (xs : List PurgeLogEntry) → is_empty (take (suc batch) xs) ≡ true → xs ≡ []
  nothing_above [] h = refl
  nothing_above (x ∷ xs) h = absurd (cc)

  -- Two reads in a row.
  joined :
      (mark m1 m2 : ℕ) (w1 w2 : World)
      → ((key : Bytes) → gone key w1 ≡ true → gone key w2 ≡ true)
      → (es : List PurgeLogEntry) → All (λ e. (e.id ≤ mark) ⊎ Applied m1 w1 e) es
      → All (λ e. (e.id ≤ m1) ⊎ Applied m2 w2 e) es
      → All (λ e. (e.id ≤ mark) ⊎ Applied m2 w2 e) es
  joined mark m1 m2 w1 w2 g [] a b = tt
  joined mark m1 m2 w1 w2 g (e ∷ es) a b = (
    elim a.0 [
      | inl x ↦ inl x
      | inr y ↦ elim y [
        | inr z ↦ inr (inr (g e.cache_key z))
        | inl z ↦ elim b.0 [ inl u ↦ absurd (omega (arith, u, z)) | inr u ↦ inr u ]
      ]
    ],
    joined mark m1 m2 w1 w2 g es a.1 b.1,
  )

  consume-Consumed :
      (fuel lo mark : ℕ) (w : World)
      → Ascending lo log
      → length (above mark log) < fuel
      → Consumed log mark w (consume_tail root fails fuel (suc batch) log mark w)
  unfolding consume_tail
  consume-Consumed zero lo mark w a h = absurd (omega (arith, h))
  consume-Consumed (suc fuel) lo mark w a h =
      let es = take (suc batch) (above mark log) in
      let r = apply_purges root fails mark false w es in
      let (l, done) = round-Applied lo mark w a in
      let still = λ (key : Bytes). gone-apply_purges root fails mark false w es key in
      elim (Bool-cases (is_empty es)) [
        | inl e ↦ rw e (record {
          mark' = mark;
          world = w;
          ends = refl;
          later = omega arith;
          applied =
              below_or (Applied mark w) mark log
                (subst (All (Applied mark w)) (sym (nothing_above (above mark log) e)) tt);
          still_gone = λ key g. g;
        })
        | inr e ↦ elim (Bool-cases (r.1 || ltb (length es) (suc batch))) [
          | inl s ↦
              rw (e, s)
                (record {
                  mark' = r.0;
                  world = r.2;
                  ends = refl;
                  later = l;
                  applied = done;
                  still_gone = still;
                })
          | inr s ↦
              let up = Ascending-keep mark lo mark log (inr (omega arith)) a in
              let fewer : length (above r.0 log) < length (above mark log) =
                round-shrinks mark w (above mark log) refl e up l (ground arith) in
              let i = consume-Consumed fuel lo r.0 r.2 a (omega (arith, h, fewer)) in
              rw (e, s)
                (record {
                  mark' = i.mark';
                  world = i.world;
                  ends = i.ends;
                  later = (let x : r.0 ≤ i.mark' = i.later in omega (arith, l, x));
                  applied = joined mark r.0 i.mark' r.2 i.world i.still_gone log done i.applied;
                  still_gone = λ key g. i.still_gone key (still key g);
                })
        ]
      ]

-- Where the ids of the log go up, the reading of the log from any mark on ends, whichever unlinks fail:
-- the mark is no lower, every entry of the log that was above it is above the new one or has its key
-- gone from the cache, and no key came back: provided a read takes at least one entry.
pub consume_tail-Consumed :
    (root : Bytes) (fails : Bytes → Bool) (batch : ℕ) (log : List PurgeLogEntry) (lo mark : ℕ)
    (w : World)
    → Ascending lo log
    → Consumed log mark w (consume_tail root fails (suc (length log)) (suc batch) log mark w)
consume_tail-Consumed root fails batch log lo mark w a =
    consume-Consumed root fails batch log (suc (length log)) lo mark w a
      (let l = length-above mark log in omega (arith, l))
