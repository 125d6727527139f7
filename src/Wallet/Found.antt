-- ===== src/Wallet/Found.antt =====
-- The rows that Delete of internal/services/wallet.go leaves.
use indelible.Common.{
  ℕ, suc, ◌≡◌, refl, sym, ap, subst, ◌∙◌, Bool, true, false, List, [], ◌∷◌, some, some-injective,
  ◌==◌, if◌then◌else◌, find, elem, Distinct, All, arith, Bool-cases, inl, inr,
}
use indelible.Common.Sql.{delete, affected}
use indelible.Common.Joins.{is_empty}
use indelible.Wallet.{Wallet, has_id}
use indelible.Wallet.Ids.{ids}

-- A row that is deleted by its id is the one that was found.
pub found-Single :
    (id : ℕ) (ws : List Wallet) (v : Wallet)
    → Distinct (ids ws)
    → find (has_id id) ws ≡ some v
    → All (λ w. has_id id w ≡ true → w.is_default ≡ v.is_default) ws
found-Single id [] v d h = tt
found-Single id (w ∷ ws) v d h = elim (Bool-cases (w.id == id)) [
  | inl e ↦
      let y : some w ≡ some v = rw (← h) (rw e refl) in
      let i : w.id ≡ id = ground arith in
      let a = absent ws (subst (λ x. elem x (ids ws) ≡ false) i d.0) in
      ((λ _. ap (λ x. x.is_default) (some-injective _ _ y)), a)
  | inr e ↦ (
    (λ t. let y : true ≡ false = sym t ∙ e in absurd (cc)),
    found-Single id ws v d.1 (rw (← h) (rw e refl)),
  )
]
  where
    absent :
        (us : List Wallet)
        → elem id (ids us) ≡ false
        → All (λ w. has_id id w ≡ true → w.is_default ≡ v.is_default) us
    absent [] x = tt
    absent (u ∷ us) x = ((λ t. absurd (ground arith)), absent us (ground arith))

pub affected-kept :
    (id : ℕ) (ws : List Wallet)
    → All (λ w. has_id id w ≡ true → w.is_default ≡ false) ws
    → affected (λ w. w.is_default) (delete (has_id id) ws) ≡ affected (λ w. w.is_default) ws
affected-kept id [] a = refl
affected-kept id (w ∷ ws) a =
    let i = affected-kept id ws a.1 in
    elim (Bool-cases (w.id == id)) [
      | inl e ↦ let n = a.0 e in rw (e, n) i
      | inr e ↦ elim (Bool-cases w.is_default) [
        | inl x ↦ rw (e, x) (ap suc i)
        | inr x ↦ rw (e, x) i
      ]
    ]

pub single-kept :
    (ws us : List Wallet)
    → is_empty ws ≡ false
    → affected (λ w. w.is_default) ws ≡ (if is_empty ws then 0 else 1)
    → affected (λ w. w.is_default) us ≡ affected (λ w. w.is_default) ws
    → affected (λ w. w.is_default) us ≡ (if is_empty us then 0 else 1)
single-kept ws [] f h e = refl
single-kept ws (u ∷ us) f h e = e ∙ h ∙ (rw f refl)

pub All-kept :
    (P : Wallet → Type 0) (d : Wallet → Bool) (ws : List Wallet) → All P ws → All P (delete d ws)
All-kept P d [] a = tt
All-kept P d (w ∷ ws) a = elim (Bool-cases (d w)) [
  | inl h ↦ rw h (All-kept P d ws a.1)
  | inr h ↦ rw h (a.0, All-kept P d ws a.1)
]
