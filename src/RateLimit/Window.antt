-- ===== src/RateLimit/Window.antt =====
-- No key gets more than its maximum of requests through in one window.
use indelible.Common.{
  ℕ, ◌+◌, ◌-◌, ◌≤◌, ◌≡◌, refl, sym, ap, subst, ◌∙◌, Bool, true, false, ◌&&◌, List, [], ◌∷◌, ◌++◌,
  none, some, some-injective, ltb, leb, arith, if◌then◌else◌, find, All, Bytes, bytes_eq,
  bytes_eq_iff, bytes_eq_swap, bytes_eq_refl, Bool-cases, inl, inr,
}
use indelible.Common.Sql.{update, delete}
use indelible.RateLimit.{
  RateLimitEntry, RateLimiter, has_key, cleanup, start_window, count_request, is_over, answer,
  check,
}

-- What happens to a limiter: a request of a key, or the cleanup, each at a time.
pub data Event : Type 0 where
  requests : Bytes → ℕ → Event
  cleans : ℕ → Event

abbrev pub time : Event → ℕ
time (requests key now) = now
time (cleans now) = now

abbrev pub after : RateLimiter → Event → RateLimiter
after rl (requests key now) = (check rl key now).0
after rl (cleans now) = cleanup rl now

-- 1 for a request of the key that is let through.
abbrev pub passes : Bytes → RateLimiter → Event → ℕ
passes key rl (requests k now) = if bytes_eq k key && (check rl k now).1.allowed then 1 else 0
passes key rl (cleans now) = 0

-- The requests of a key that are let through.
unfoldable pub passed : Bytes → RateLimiter → List Event → ℕ
passed key rl [] = 0
passed key rl (x ∷ xs) = passes key rl x + passed key (after rl x) xs

-- The key has an entry with that count and end of its window.
record InWindow (key : Bytes) (rl : RateLimiter) (max count reset : ℕ) : Type 0 where
  same_max : rl.max ≡ max
  here :
      find (has_key key) rl.entries ≡ some (record { key = key; count = count; reset_at = reset })

find-delete :
    (p q : RateLimitEntry → Bool) (es : List RateLimitEntry) (e : RateLimitEntry)
    → find p es ≡ some e
    → ((r : RateLimitEntry) → p r ≡ true → some r ≡ some e → q r ≡ false)
    → find p (delete q es) ≡ some e
find-delete p q [] e f h = cc
find-delete p q (r ∷ es) e f h = elim (Bool-cases (p r)) [
  | inl x ↦ let y : some r ≡ some e = rw (← f) (rw x refl) in rw (h r x y, x) y
  | inr x ↦
      let ih = find-delete p q es e (rw (← f) (rw x refl)) h in
      elim (Bool-cases (q r)) [ inl z ↦ rw z ih | inr z ↦ rw (z, x) ih ]
]

find-append :
    (p : RateLimitEntry → Bool) (es fs : List RateLimitEntry) (e : RateLimitEntry)
    → find p es ≡ some e
    → find p (es ++ fs) ≡ some e
find-append p [] fs e f = cc
find-append p (r ∷ es) fs e f = elim (Bool-cases (p r)) [
  | inl x ↦ let y : some r ≡ some e = rw (← f) (rw x refl) in rw x y
  | inr x ↦ rw x (find-append p es fs e (rw (← f) (rw x refl)))
]

abbrev counted : RateLimitEntry → RateLimitEntry
counted e = record e { count = e.count + 1 }

find-counted :
    (key : Bytes) (es : List RateLimitEntry) (e : RateLimitEntry)
    → find (has_key key) es ≡ some e
    → find (has_key key) (update (has_key key) counted es) ≡ some (counted e)
unfolding update
find-counted key [] e f = cc
find-counted key (r ∷ es) e f = elim (Bool-cases (has_key key r)) [
  | inl x ↦
      let y : some r ≡ some e = rw (← f) (rw x refl) in
      rw (x, x) (ap some (ap counted (some-injective _ _ y)))
  | inr x ↦ rw (x, x) (find-counted key es e (rw (← f) (rw x refl)))
]

other-key :
    (key k : Bytes) (r : RateLimitEntry)
    → bytes_eq k key ≡ false
    → has_key k r ≡ true
    → has_key key r ≡ false
other-key key k r d h = rw ((bytes_eq_iff r.key k).0 h) d

find-counted_other :
    (key k : Bytes) (es : List RateLimitEntry)
    → bytes_eq k key ≡ false
    → find (has_key key) (update (has_key k) counted es) ≡ find (has_key key) es
unfolding update
find-counted_other key k [] d = refl
find-counted_other key k (r ∷ es) d =
    let ih = find-counted_other key k es d in
    elim (Bool-cases (has_key k r)) [
      | inl x ↦ let y = other-key key k r d x in rw (x, y) ih
      | inr x ↦ rw (x, ih) refl
    ]

module _ (key : Bytes) (rl : RateLimiter) (max count reset : ℕ)
    (w : InWindow key rl max count reset) where
  -- A request of the key in its window.
  check-here :
      (now : ℕ)
      → now ≤ reset
      → InWindow key (check rl key now).0 max (count + 1) reset
        × ((check rl key now).1.allowed ≡ leb (count + 1) max)
  unfolding check is_over count_request answer
  check-here now l =
      let n : ltb reset now ≡ false = ground arith in
      rw (w.here, n, check)
        (
          record { same_max = w.same_max; here = find-counted key rl.entries _ w.here },
          ap (λ m. leb (count + 1) m) w.same_max,
        )

  -- A request of another key.
  check-other :
      (k : Bytes) (now : ℕ)
      → bytes_eq k key ≡ false
      → InWindow key (check rl k now).0 max count reset
  unfolding check start_window count_request
  check-other k now d = elim (Bool-cases (is_over (find (has_key k) rl.entries) now)) [
    | inl o ↦
        rw (o, check)
          (record {
            same_max = w.same_max;
            here = find-append (has_key key) (delete (has_key k) rl.entries) _ _ (
                find-delete (has_key key) (has_key k) rl.entries _ w.here
                  (λ r h e. rw ((bytes_eq_iff r.key key).0 h) (bytes_eq_swap k key d)));
          })
    | inr o ↦
        rw (o, check)
          (record { same_max = w.same_max; here = find-counted_other key k rl.entries d ∙ w.here })
  ]

  cleanup-keeps : (now : ℕ) → now ≤ reset → InWindow key (cleanup rl now) max count reset
  unfolding cleanup
  cleanup-keeps now l = record {
    same_max = w.same_max;
    here =
        find-delete (has_key key) (λ e. ltb e.reset_at now) rl.entries _ w.here
          (λ r h e. let x = ap (λ v. v.reset_at) (some-injective _ _ e) in rw x (ground arith));
  }

-- In a window, what is left of the maximum bounds the requests that pass.
passed-InWindow :
    (key : Bytes) (rl : RateLimiter) (max count reset : ℕ) (xs : List Event)
    → InWindow key rl max count reset
    → All (λ x. time x ≤ reset) xs
    → passed key rl xs ≤ max - count
unfolding passed
passed-InWindow key rl max count reset [] w t = omega arith
passed-InWindow key rl max count reset (cleans now ∷ xs) w t =
    let l : now ≤ reset = t.0 in
    let ih =
      passed-InWindow key (cleanup rl now) max count reset xs
        (cleanup-keeps key rl max count reset w now l) t.1 in
    omega (arith, ih)
passed-InWindow key rl max count reset (requests k now ∷ xs) w t =
    let l : now ≤ reset = t.0 in
    elim (Bool-cases (bytes_eq k key)) [
      | inr d ↦
          let ih =
            passed-InWindow key (check rl k now).0 max count reset xs
              (check-other key rl max count reset w k now d) t.1 in
          rw d (omega (arith, ih))
      | inl e ↦
          let same = (bytes_eq_iff k key).0 e in
          let (w', a) = check-here key rl max count reset w now l in
          let ih = passed-InWindow key (check rl key now).0 max (count + 1) reset xs w' t.1 in
          rw same (elim (Bool-cases (leb (count + 1) max)) [
            | inl m ↦ rw (bytes_eq_refl key, a, m) (ground (arith, ih))
            | inr m ↦ rw (bytes_eq_refl key, a, m) (ground (arith, ih))
          ])
    ]

find-started :
    (key : Bytes) (es : List RateLimitEntry) (e : RateLimitEntry)
    → e.key ≡ key
    → find (has_key key) (delete (has_key key) es ++ e ∷ []) ≡ some e
find-started key [] e k = rw (k, bytes_eq_refl key) refl
find-started key (r ∷ es) e k = elim (Bool-cases (has_key key r)) [
  | inl x ↦ rw x (find-started key es e k)
  | inr x ↦ rw (x, x) (find-started key es e k)
]

-- From a request of a key that has no running window on, through any requests and cleanups up to the
-- end of the window that it starts, at most the maximum of the key's requests pass, where the maximum
-- is at least 1.
pub passed-le_max :
    (key : Bytes) (rl : RateLimiter) (now : ℕ) (xs : List Event)
    → 1 ≤ rl.max
    → is_over (find (has_key key) rl.entries) now ≡ true
    → All (λ x. time x ≤ now + rl.window) xs
    → passed key rl (requests key now ∷ xs) ≤ rl.max
unfolding passed
passed-le_max key rl now xs m o t =
    let c : check rl key now ≡ (start_window rl key now, answer rl none now) =
      unfold check in rw o refl in
    let w : InWindow key (start_window rl key now) rl.max 1 (now + rl.window) =
      unfold start_window in
      record { same_max = refl; here = find-started key rl.entries _ refl } in
    let ih = passed-InWindow key (start_window rl key now) rl.max 1 (now + rl.window) xs w t in
    let first = subst (λ p. passed key p.0 xs ≤ rl.max - 1) (sym c) ih in ground (arith, first, m)
