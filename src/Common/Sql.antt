-- ===== src/Common/Sql.antt =====
-- The SQL statements of the services, over a table that is the list of its rows in insertion order.
use Prim.Native.Nat.{ℕ}
use mathlib.Core.Path.{◌≡◌, refl}
use mathlib.Core.Logic.{inl, inr}
use mathlib.Core.Bool.{Bool, true, not}
use mathlib.Core.List.{List, [], ◌∷◌}
use indelible.Common.Decisions.{if◌then◌else◌, Bool-cases}
use indelible.Common.Lists.{length, keep, any, All}

module _ {ℓ} {A : Type ℓ} where
  -- `UPDATE table SET f WHERE p`.
  unfoldable pub update : (A → Bool) → (A → A) → List A → List A
  update p f [] = []
  update p f (r ∷ rs) = (if p r then f r else r) ∷ update p f rs

  -- `DELETE FROM table WHERE p`.
  abbrev pub delete : (A → Bool) → List A → List A
  delete p rs = keep (λ r. not (p r)) rs

  -- The number of rows that a statement with `WHERE p` affects.
  abbrev pub affected : (A → Bool) → List A → ℕ
  affected p rs = length (keep p rs)

module _ {ℓ} {A : Type ℓ} where
  -- A test that a change does not affect finds the same rows.
  pub any-update :
      (q : A → Bool) (f : A → A) (p : A → Bool) (rs : List A)
      → ((r : A) → q r ≡ true → p (f r) ≡ p r)
      → any p (update q f rs) ≡ any p rs
  unfolding update
  any-update q f p [] h = refl
  any-update q f p (r ∷ rs) h = elim (Bool-cases (q r)) [
    | inl e ↦ rw (e, h r e, any-update q f p rs h) refl
    | inr e ↦ rw (e, any-update q f p rs h) refl
  ]

  -- A predicate that the change establishes on the rows it meets, and that the others have.
  pub All-update {κ} :
      (P : A → Type κ) (q : A → Bool) (f : A → A) (rs : List A)
      → All P rs
      → ((r : A) → q r ≡ true → P r → P (f r))
      → All P (update q f rs)
  unfolding update
  All-update P q f [] a h = tt
  All-update P q f (r ∷ rs) a h = elim (Bool-cases (q r)) [
    | inl e ↦ rw e (h r e a.0, All-update P q f rs a.1 h)
    | inr e ↦ rw e (a.0, All-update P q f rs a.1 h)
  ]
