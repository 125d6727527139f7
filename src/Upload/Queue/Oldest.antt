-- ===== src/Upload/Queue/Oldest.antt =====
-- `ORDER BY queued_at ASC LIMIT 1` over the rows that pass a test.
use indelible.Common.{
  ℕ, ◌≤◌, ◌≡◌, ◌⊎◌, refl, ◌∙◌, sym, subst, Bool, true, false, List, [], ◌∷◌, Option, none, some,
  ◌==◌, arith, if◌then◌else◌, any, All, All-mono, ==_iff, find, Bool-cases, Option-cases, inl, inr,
  leb, map, keep, Distinct, elem, some-injective,
}
use indelible.Upload.Row.{Upload}
use indelible.Upload.Queue.{oldest}

-- The first row with an id.
abbrev pub row : ℕ → List Upload → Option Upload
row id us = find (λ u. u.id == id) us

oldest-some : (v : Upload) (us : List Upload) → (u : Upload) × (oldest (v ∷ us) ≡ some u)
unfolding oldest
oldest-some v us = elim (Option-cases (oldest us)) [
  | inl e ↦ (v, rw e refl)
  | inr (w, e) ↦ ((if leb v.queued_at w.queued_at then v else w), rw e refl)
]

pub oldest-le :
    (us : List Upload) (u : Upload) → oldest us ≡ some u → All (λ v. u.queued_at ≤ v.queued_at) us
unfolding oldest
oldest-le [] u h = tt
oldest-le (v ∷ []) u h =
    (subst (λ x. x.queued_at ≤ v.queued_at) (some-injective _ _ h) (omega arith), tt)
oldest-le (v ∷ w ∷ us) u h =
    let (x, e) = oldest-some w us in
    let ih = oldest-le (w ∷ us) x e in
    let pick : (if leb v.queued_at x.queued_at then v else x) ≡ u =
      some-injective _ _ (rw e at h) in
    elim (Bool-cases (leb v.queued_at x.queued_at)) [
      | inl b ↦
          let is : v ≡ u = rw b at pick in
          subst (λ y. All (λ z. y.queued_at ≤ z.queued_at) (v ∷ w ∷ us)) is
            (omega arith, All-mono (w ∷ us) (λ z q. ground arith) ih)
      | inr b ↦
          let is : x ≡ u = rw b at pick in
          subst (λ y. All (λ z. y.queued_at ≤ z.queued_at) (v ∷ w ∷ us)) is (ground arith, ih)
    ]

row-id : (id : ℕ) (us : List Upload) (u : Upload) → row id us ≡ some u → u.id ≡ id
row-id id [] u h = cc
row-id id (v ∷ us) u h = elim (Bool-cases (v.id == id)) [
  | inl e ↦ subst (λ x. x.id ≡ id) (some-injective _ _ (rw e at h)) ((==_iff v.id id).0 e)
  | inr e ↦ row-id id us u (rw e at h)
]

row-elem :
    (id : ℕ) (us : List Upload) (u : Upload)
    → row id us ≡ some u
    → elem id (map (λ v. v.id) us) ≡ true
row-elem id [] u h = cc
row-elem id (v ∷ us) u h = elim (Bool-cases (v.id == id)) [
  | inl e ↦ rw e refl
  | inr e ↦ rw e (row-elem id us u (rw e at h))
]

-- The chosen row is the row of its id, and it passes the test.
unfoldable pub Chosen : (Upload → Bool) → List Upload → Upload → Type 0
Chosen p us u = (row u.id us ≡ some u) × (p u ≡ true)

Chosen-here : (p : Upload → Bool) (v : Upload) (us : List Upload) → p v ≡ true → Chosen p (v ∷ us) v
unfolding Chosen
Chosen-here p v us h = (rw ((==_iff v.id v.id).1 refl) refl, h)

Chosen-later :
    (p : Upload → Bool) (v : Upload) (us : List Upload) (u : Upload)
    → elem v.id (map (λ x. x.id) us) ≡ false
    → Chosen p us u
    → Chosen p (v ∷ us) u
unfolding Chosen
Chosen-later p v us u d c = elim (Bool-cases (v.id == u.id)) [
  | inl e ↦
      let same : v.id ≡ u.id = (==_iff v.id u.id).0 e in
      absurd (
        ground
          (arith, row-elem u.id us u c.0, subst (λ k. elem k (map (λ x. x.id) us) ≡ false) same d))
  | inr e ↦ (rw e c.0, c.1)
]

-- The step at a row that passes the test.
oldest_taken :
    (p : Upload → Bool) (v : Upload) (us : List Upload) (u : Upload)
    → elem v.id (map (λ x. x.id) us) ≡ false
    → p v ≡ true
    → ((w : Upload) → oldest (keep p us) ≡ some w → Chosen p us w)
    → (oldest (keep p us) ≡ none) ⊎ ((w : Upload) × (oldest (keep p us) ≡ some w))
    → oldest (v ∷ keep p us) ≡ some u
    → Chosen p (v ∷ us) u
unfolding oldest
oldest_taken p v us u d e ih (inl n) h =
    subst (Chosen p (v ∷ us)) (some-injective _ _ (rw (n, oldest) at h)) (Chosen-here p v us e)
oldest_taken p v us u d e ih (inr (w, q)) h =
    let pick : (if leb v.queued_at w.queued_at then v else w) ≡ u =
      some-injective _ _ (rw (q, oldest) at h) in
    elim (Bool-cases (leb v.queued_at w.queued_at)) [
      | inl b ↦ let is : v ≡ u = rw b at pick in subst (Chosen p (v ∷ us)) is (Chosen-here p v us e)
      | inr b ↦
          let is : w ≡ u = rw b at pick in
          subst (Chosen p (v ∷ us)) is (Chosen-later p v us w d (ih w q))
    ]

pub oldest-Chosen :
    (p : Upload → Bool) (us : List Upload) (u : Upload)
    → Distinct (map (λ v. v.id) us)
    → oldest (keep p us) ≡ some u
    → Chosen p us u
unfolding oldest
oldest-Chosen p [] u d h = cc
oldest-Chosen p (v ∷ us) u d h = elim (Bool-cases (p v)) [
  | inl e ↦
      oldest_taken p v us u d.0 e (λ w q. oldest-Chosen p us w d.1 q)
        (Option-cases (oldest (keep p us))) (rw e at h)
  | inr e ↦ Chosen-later p v us u d.0 (oldest-Chosen p us u d.1 (rw e at h))
]

pub none_kept :
    (p : Upload → Bool) (us : List Upload) → oldest (keep p us) ≡ none → any p us ≡ false
unfolding oldest
none_kept p [] h = refl
none_kept p (v ∷ us) h = elim (Bool-cases (p v)) [
  | inl e ↦ let (x, q) = oldest-some v (keep p us) in cc (sym q ∙ (rw e at h))
  | inr e ↦ rw e (none_kept p us (rw e at h))
]
