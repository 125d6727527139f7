-- ===== src/Wallet/Ids.antt =====
-- The ids of the wallets, internal/services/wallet.go.
use indelible.Common.{
  ℕ, suc, ◌≡◌, ◌≤◌, refl, sym, ap, subst, ◌∙◌, Bool, true, false, ◌||◌, List, [], ◌∷◌, ◌++◌, map,
  ◌==◌, any, elem, Distinct, All, arith, Bool-cases, inl, inr,
}
use indelible.Common.Sql.{update, delete, affected}
use indelible.Wallet.{Wallet, has_id}

abbrev pub ids : List Wallet → List ℕ
ids ws = map (λ w. w.id) ws

pub elem-above : (n : ℕ) (ws : List Wallet) → All (λ w. w.id ≤ n) ws → elem (suc n) (ids ws) ≡ false
elem-above n [] a = refl
elem-above n (w ∷ ws) a =
    let l = a.0 in let h : (w.id == suc n) ≡ false = ground arith in rw h (elem-above n ws a.1)

pub Distinct-append :
    (ws : List Wallet) (v : Wallet)
    → elem v.id (ids ws) ≡ false
    → Distinct (ids ws)
    → Distinct (ids (ws ++ v ∷ []))
Distinct-append [] v e d = (refl, tt)
Distinct-append (w ∷ ws) v e d = (apart ws d.0, Distinct-append ws v (ground arith) d.1)
  where
    apart : (us : List Wallet) → elem w.id (ids us) ≡ false → elem w.id (ids (us ++ v ∷ [])) ≡ false
    apart [] h = ground arith
    apart (u ∷ us) h = let i = apart us (ground arith) in ground arith

pub ids-update :
    (q : Wallet → Bool) (f : Wallet → Wallet) (ws : List Wallet)
    → ((w : Wallet) → (f w).id ≡ w.id)
    → ids (update q f ws) ≡ ids ws
unfolding update
ids-update q f [] h = refl
ids-update q f (w ∷ ws) h = elim (Bool-cases (q w)) [
  | inl e ↦ rw (e, h w) (ap (λ l. w.id ∷ l) (ids-update q f ws h))
  | inr e ↦ rw e (ap (λ l. w.id ∷ l) (ids-update q f ws h))
]

pub Distinct-delete :
    (d : Wallet → Bool) (ws : List Wallet) → Distinct (ids ws) → Distinct (ids (delete d ws))
Distinct-delete d [] x = tt
Distinct-delete d (w ∷ ws) x = elim (Bool-cases (d w)) [
  | inl e ↦ rw e (Distinct-delete d ws x.1)
  | inr e ↦ rw e (apart ws x.0, Distinct-delete d ws x.1)
]
  where
    apart : (us : List Wallet) → elem w.id (ids us) ≡ false → elem w.id (ids (delete d us)) ≡ false
    apart [] h = h
    apart (u ∷ us) h = let i = apart us (ground arith) in ground arith

-- The rows of one id are one, where ids are distinct and there is one.
affected-absent :
    (id : ℕ) (ws : List Wallet) → elem id (ids ws) ≡ false → affected (has_id id) ws ≡ 0
affected-absent id [] h = refl
affected-absent id (w ∷ ws) h =
    let e : (w.id == id) ≡ false = ground arith in rw e (affected-absent id ws (ground arith))

pub affected-one :
    (id : ℕ) (ws : List Wallet)
    → Distinct (ids ws)
    → any (has_id id) ws ≡ true
    → affected (has_id id) ws ≡ 1
affected-one id [] d h = absurd (cc)
affected-one id (w ∷ ws) d h = elim (Bool-cases (w.id == id)) [
  | inl e ↦
      let i : w.id ≡ id = ground arith in
      rw e (ap suc (affected-absent id ws (subst (λ x. elem x (ids ws) ≡ false) i d.0)))
  | inr e ↦ rw e (affected-one id ws d.1 (sym (ap (λ b. b || any (has_id id) ws) e) ∙ h))
]
