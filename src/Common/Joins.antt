-- ===== src/Common/Joins.antt =====
-- Joins of tables, and Boolean tests over joined rows.
use mathlib.Core.Path.{◌≡◌, refl, sym, ap, fun_ext}
use mathlib.Core.Bool.{Bool, true, false, ◌&&◌, ◌||◌}
use mathlib.Core.Option.{Option, some, none}
use mathlib.Core.List.{List, [], ◌∷◌, ◌++◌, map}
use native.Mathlib.Omega.{arith}
use indelible.Common.Lists.{keep, any, any-append}

-- One side of a LEFT JOIN: the matching rows, or one row of NULLs.
abbrev pub or_null {ℓ} : {A : Type ℓ} → List A → List (Option A)
or_null [] = none ∷ []
or_null (x ∷ xs) = map some (x ∷ xs)

abbrev pub flat_map {ℓ κ} : {A : Type ℓ} {B : Type κ} → (A → List B) → List A → List B
flat_map f [] = []
flat_map f (x ∷ xs) = f x ++ flat_map f xs

abbrev pub is_empty {ℓ} : {A : Type ℓ} → List A → Bool
is_empty [] = true
is_empty (x ∷ xs) = false

pub is_empty-keep :
    {A : Type 0} (p : A → Bool) (xs : List A)
    → (elim (is_empty (keep p xs)) [ true ↦ false | false ↦ true ]) ≡ any p xs
is_empty-keep p [] = refl
is_empty-keep p (x ∷ xs) = ground (arith, is_empty-keep p xs)

pub any-flat_map :
    {A B : Type 0} (p : B → Bool) (f : A → List B) (xs : List A)
    → any p (flat_map f xs) ≡ any (λ x. any p (f x)) xs
any-flat_map p f [] = refl
any-flat_map p f (x ∷ xs) = ground (arith, any-append p (f x) (flat_map f xs), any-flat_map p f xs)

pub any-map :
    {A B : Type 0} (p : B → Bool) (f : A → B) (xs : List A)
    → any p (map f xs) ≡ any (λ x. p (f x)) xs
any-map p f [] = refl
any-map p f (x ∷ xs) = ground (arith, any-map p f xs)

pub any-keep :
    {A : Type 0} (p q : A → Bool) (xs : List A) → any p (keep q xs) ≡ any (λ x. q x && p x) xs
any-keep p q [] = refl
any-keep p q (x ∷ xs) = ground (arith, any-keep p q xs)

pub any-or_null :
    {A : Type 0} (p : Option A → Bool) (xs : List A)
    → p none ≡ false
    → any p (or_null xs) ≡ any (λ x. p (some x)) xs
any-or_null p [] h = ground arith
any-or_null p (x ∷ xs) h = ground (arith, any-map p some xs)

pub any-false : {A : Type 0} (xs : List A) → any (λ _. false) xs ≡ false
any-false [] = refl
any-false (x ∷ xs) = any-false xs

pub any_swap :
    {A B : Type 0} (q : A → B → Bool) (xs : List A) (ys : List B)
    → any (λ x. any (q x) ys) xs ≡ any (λ y. any (λ x. q x y) xs) ys
any_swap q [] ys = sym (any-false ys)
any_swap {B = B} q (x ∷ xs) ys = rw (any_swap q xs ys) (any-or ys)
  where
    any-or :
        (zs : List B)
        → (any (q x) zs || any (λ y. any (λ z. q z y) xs) zs)
          ≡ any (λ y. q x y || any (λ z. q z y) xs) zs
    any-or [] = refl
    any-or (z ∷ zs) = ground (arith, any-or zs)

pub is_empty-or_null : {A : Type 0} (xs : List A) → is_empty (or_null xs) ≡ false
is_empty-or_null [] = refl
is_empty-or_null (x ∷ xs) = refl

pub is_empty-flat_map :
    {A B : Type 0} (f : A → List B) (xs : List A)
    → ((x : A) → is_empty (f x) ≡ false)
    → is_empty xs ≡ false
    → is_empty (flat_map f xs) ≡ false
is_empty-flat_map f [] ne h = cc
is_empty-flat_map {B = B} f (x ∷ xs) ne h = go (f x) (ne x)
  where
    go : (ys : List B) → is_empty ys ≡ false → is_empty (ys ++ flat_map f xs) ≡ false
    go [] e = cc
    go (y ∷ ys) e = refl

pub any_ext :
    {A : Type 0} {p q : A → Bool} → ((x : A) → p x ≡ q x) → (xs : List A) → any p xs ≡ any q xs
any_ext h xs = ap (λ p. any p xs) (fun_ext h)
