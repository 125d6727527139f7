-- ===== src/Upload/Keys/Ids.antt =====
-- The ids of the rows, as an insertion and an update leave them.
use indelible.Common.{
  ℕ, suc, ◌≡◌, ◌≤◌, ◌++◌, refl, ap, false, map, elem, Distinct, Bool, List, [], ◌∷◌, ◌==◌, arith,
  All, Bool-cases, inl, inr,
}
use indelible.Common.Sql.{update}
use indelible.Upload.Row.{Upload}

pub elem-above :
    (n : ℕ) (us : List Upload) → All (λ u. u.id ≤ n) us → elem (suc n) (map (λ u. u.id) us) ≡ false
elem-above n [] a = refl
elem-above n (u ∷ us) a =
    let l = a.0 in let h : (u.id == suc n) ≡ false = ground arith in rw h (elem-above n us a.1)

pub Distinct-append :
    (us : List Upload) (v : Upload)
    → elem v.id (map (λ u. u.id) us) ≡ false
    → Distinct (map (λ u. u.id) us)
    → Distinct (map (λ u. u.id) (us ++ v ∷ []))
Distinct-append [] v e d = (refl, tt)
Distinct-append (w ∷ us) v e d = (apart us d.0, Distinct-append us v (ground arith) d.1)
  where
    apart :
        (xs : List Upload)
        → elem w.id (map (λ u. u.id) xs) ≡ false
        → elem w.id (map (λ u. u.id) (xs ++ v ∷ [])) ≡ false
    apart [] h = ground arith
    apart (x ∷ xs) h = let i = apart xs (ground arith) in ground arith

pub ids-update :
    (q : Upload → Bool) (f : Upload → Upload) (us : List Upload)
    → ((u : Upload) → (f u).id ≡ u.id)
    → map (λ u. u.id) (update q f us) ≡ map (λ u. u.id) us
unfolding update
ids-update q f [] h = refl
ids-update q f (u ∷ us) h = elim (Bool-cases (q u)) [
  | inl e ↦ rw (e, h u) (ap (λ l. u.id ∷ l) (ids-update q f us h))
  | inr e ↦ rw e (ap (λ l. u.id ∷ l) (ids-update q f us h))
]
