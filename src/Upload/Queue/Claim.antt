-- ===== src/Upload/Queue/Claim.antt =====
-- Claiming: which upload DequeueNext hands to a worker, and that no two workers get the same one.
use indelible.Common.{
  ℕ, ◌≤◌, ◌≡◌, ◌≢◌, ◌⊎◌, refl, ap, ◌∙◌, sym, subst, Bool, true, false, List, [], ◌∷◌, Option, none,
  some, ◌==◌, arith, any, All, Bool-cases, Option-cases, inl, inr, ◌&&◌, map, keep, Distinct,
  Result, ok, some-injective,
}
use indelible.Common.Sql.{update}
use indelible.Upload.Row.{Upload, Store, UploadError, processing, is_queued, get_by_id}
use indelible.Upload.Queue.{dequeue_next, oldest, eligible, claim}
use indelible.Upload.Queue.Oldest.{row, oldest-le, oldest-Chosen, none_kept, Chosen}

-- The row that a claim leaves.
abbrev pub claimed : ℕ → Upload → Upload
claimed now u = record u { status = processing; processing_at = some now }

row-claim :
    (id now : ℕ) (us : List Upload) (u : Upload)
    → row id us ≡ some u
    → is_queued u.status ≡ true
    → row id (update (λ v. v.id == id && is_queued v.status) (claimed now) us)
      ≡ some (claimed now u)
unfolding update
row-claim id now [] u h q = cc
row-claim id now (v ∷ us) u h q = elim (Bool-cases (v.id == id)) [
  | inl e ↦
      let is : v ≡ u = some-injective _ _ (rw e at h) in
      let qv : is_queued v.status ≡ true = subst (λ x. is_queued x.status ≡ true) (sym is) q in
      rw (e, qv, e) (ap (λ x. some (claimed now x)) is)
  | inr e ↦ rw (e, e) (row-claim id now us u (rw e at h) q)
]

-- What DequeueNext returns and leaves.
abbrev pub Dequeues : Store → ℕ → Store × Result UploadError (Option Upload) → Type 0
Dequeues s now r =
    ((any (eligible now) s.uploads ≡ false) × (r ≡ (s, ok none)))
    ⊎ ((u : Upload) × (row u.id s.uploads ≡ some u)
        × (eligible now u ≡ true)
        × All (λ v. u.queued_at ≤ v.queued_at) (keep (eligible now) s.uploads)
        × (r ≡ (claim now u.id s, ok (some (claimed now u)))))

get-claim :
    (s : Store) (now : ℕ) (u : Upload)
    → row u.id s.uploads ≡ some u
    → is_queued u.status ≡ true
    → get_by_id (claim now u.id s) u.id ≡ ok (claimed now u)
unfolding get_by_id
get-claim s now u h q = rw (row-claim u.id now s.uploads u h q, get_by_id) refl

-- Where upload ids are distinct, DequeueNext never fails. Either no upload is eligible (queued, and
-- not backing off past now) and nothing changes, or it claims an eligible upload that was queued no
-- later than any other eligible one, moves exactly that row to processing, and returns it.
pub dequeue_next-Dequeues :
    (s : Store) (now : ℕ)
    → Distinct (map (λ u. u.id) s.uploads)
    → Dequeues s now (dequeue_next s now)
unfolding dequeue_next Chosen
dequeue_next-Dequeues s now d = elim (Option-cases (oldest (keep (eligible now) s.uploads))) [
  | inl e ↦ inl (none_kept (eligible now) s.uploads e, rw (e, dequeue_next) refl)
  | inr (u, e) ↦
      let c = oldest-Chosen (eligible now) s.uploads u d e in
      inr (
        u,
        c.0,
        c.1,
        oldest-le (keep (eligible now) s.uploads) u e,
        rw (e, dequeue_next, get-claim s now u c.0 (ground arith)) refl,
      )
]

ok_some_injective :
    {u v : Upload}
    → ◌≡◌ {A = Result UploadError (Option Upload)} (ok (some u)) (ok (some v))
    → u ≡ v
ok_some_injective e = cc

-- A claim that returned a row.
Dequeues-some :
    (s s' : Store) (now : ℕ) (u : Upload)
    → Dequeues s now (s', ok (some u))
    → (w : Upload) × (row w.id s.uploads ≡ some w)
      × (eligible now w ≡ true)
      × (s' ≡ claim now w.id s)
      × (u ≡ claimed now w)
Dequeues-some s s' now u (inl (n, e)) = absurd (no_row (ap (λ p. p.1) e))
  where
    no_row : ◌≡◌ {A = Result UploadError (Option Upload)} (ok (some u)) (ok none) → ⊥
    no_row q = cc
Dequeues-some s s' now u (inr (w, r, g, m, e)) =
    (w, r, g, ap (λ p. p.0) e, ok_some_injective (ap (λ p. p.1) e))

ids-update :
    (p : Upload → Bool) (f : Upload → Upload) (us : List Upload)
    → ((u : Upload) → (f u).id ≡ u.id)
    → map (λ u. u.id) (update p f us) ≡ map (λ u. u.id) us
unfolding update
ids-update p f [] h = refl
ids-update p f (u ∷ us) h = elim (Bool-cases (p u)) [
  | inl e ↦ rw (e, h u, ids-update p f us h) refl
  | inr e ↦ rw (e, ids-update p f us h) refl
]

-- Two claims in a row, at any two times, never return the same upload.
pub dequeue_next_twice :
    (s s' s'' : Store) (now later : ℕ) (u v : Upload)
    → Distinct (map (λ x. x.id) s.uploads)
    → dequeue_next s now ≡ (s', ok (some u))
    → dequeue_next s' later ≡ (s'', ok (some v))
    → u.id ≢ v.id
dequeue_next_twice s s' s'' now later u v d e f same =
    let (w, rw_w, gw, is', iu) =
      Dequeues-some s s' now u (subst (Dequeues s now) e (dequeue_next-Dequeues s now d)) in
    let d' : Distinct (map (λ x. x.id) s'.uploads) =
      subst (λ t. Distinct (map (λ x. x.id) t.uploads)) (sym is')
        (subst Distinct
          (sym (
            ids-update (λ x. x.id == w.id && is_queued x.status) (claimed now) s.uploads
              (λ x. refl)))
          d) in
    let (x, rx, gx, _, iv) =
      Dequeues-some s' s'' later v
        (subst (Dequeues s' later) f (dequeue_next-Dequeues s' later d')) in
    let ids : w.id ≡ x.id = sym (ap (λ y. y.id) iu) ∙ same ∙ ap (λ y. y.id) iv in
    let left : row w.id s'.uploads ≡ some (claimed now w) =
      subst (λ t. row w.id t.uploads ≡ some (claimed now w)) (sym is')
        (row-claim w.id now s.uploads w rw_w (ground arith)) in
    let right : row w.id s'.uploads ≡ some x =
      subst (λ k. row k s'.uploads ≡ some x) (sym ids) rx in
    let same_row : claimed now w ≡ x = some-injective _ _ (sym left ∙ right) in
    let q : is_queued processing ≡ true = ap (λ y. is_queued y.status) same_row ∙ (ground arith) in
    cc q
