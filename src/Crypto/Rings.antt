-- ===== src/Crypto/Rings.antt =====
-- newKeyring of internal/crypto/keyring.go: the keys that a ring holds, and their ids.
use indelible.Common.{
  ◌≡◌, refl, sym, ap, subst, ◌∙◌, true, List, [], ◌∷◌, none, some, some-injective, arith, any, All,
  Bytes, bytes_eq, bytes_eq_iff, bytes_eq_refl, Bool-cases, Option-cases, inl, inr,
}
use indelible.Crypto.{
  Primitives, Keyring, lookup, hold, add_extras, new_keyring, new_keyring_of, key_id,
}

module _ (p : Primitives) where
  -- Whatever the ring has under the id is the key.
  abbrev Agrees : Bytes → Bytes → Keyring → Type 0
  Agrees id key kr = (k : Bytes) → lookup id kr.keys ≡ some k → k ≡ key

  lookup-hold :
      (id key : Bytes) (kr : Keyring) (i e : Bytes)
      → lookup id kr.keys ≡ some key
      → lookup id (hold kr i e).keys ≡ some key
  unfolding hold lookup
  lookup-hold id key kr i e h = elim (Option-cases (lookup i kr.keys)) [
    | inr (k, x) ↦ rw (x, hold) h
    | inl x ↦ elim (Bool-cases (bytes_eq i id)) [
      | inr b ↦ rw (x, hold) (rw b h)
      | inl b ↦
          let s = (bytes_eq_iff i id).0 b in
          let y : none ≡ some key = sym x ∙ ap (λ z. lookup z kr.keys) s ∙ h in absurd (cc)
    ]
  ]

  lookup-add_extras :
      (id key : Bytes) (kr : Keyring) (es : List Bytes) (kr' : Keyring)
      → lookup id kr.keys ≡ some key
      → add_extras (key_id p) kr es ≡ some kr'
      → lookup id kr'.keys ≡ some key
  unfolding add_extras
  lookup-add_extras id key kr [] kr' h a = rw (← some-injective _ _ a) h
  lookup-add_extras id key kr (e ∷ es) kr' h a = elim (Option-cases (key_id p e)) [
    | inl x ↦ let y : none ≡ some kr' = rw (← a) (rw (x, add_extras) refl) in absurd (cc)
    | inr (i, x) ↦
        lookup-add_extras id key (hold kr i e) es kr' (lookup-hold id key kr i e h)
          (rw (← a) (rw (x, add_extras) refl))
  ]

  primary-hold : (r : Keyring) (i e : Bytes) → (hold r i e).primary ≡ r.primary
  unfolding hold
  primary-hold r i e = elim (Option-cases (lookup i r.keys)) [
    | inl x ↦ rw (x, hold) refl
    | inr (k, x) ↦ rw (x, hold) refl
  ]

  primary-add_extras :
      (r : Keyring) (xs : List Bytes) (r' : Keyring)
      → add_extras (key_id p) r xs ≡ some r'
      → r'.primary ≡ r.primary
  unfolding add_extras
  primary-add_extras r [] r' a = ap (λ k. k.primary) (sym (some-injective _ _ a))
  primary-add_extras r (e ∷ xs) r' a = elim (Option-cases (key_id p e)) [
    | inl x ↦ let y : none ≡ some r' = rw (← a) (rw (x, add_extras) refl) in absurd (cc)
    | inr (i, x) ↦
        primary-add_extras (hold r i e) xs r' (rw (← a) (rw (x, add_extras) refl))
        ∙ primary-hold r i e
  ]

  new_keyring_lem :
      (key : Bytes) (es : List Bytes) (id : Bytes)
      → key_id p key ≡ some id
      → new_keyring p key es
        ≡ add_extras (key_id p) (record { primary = id; order = id ∷ []; keys = (id, key) ∷ [] }) es
  unfolding new_keyring new_keyring_of
  new_keyring_lem key es id k = rw (k, new_keyring_of) refl

  pub new_keyring-none :
      (key : Bytes) (es : List Bytes) → key_id p key ≡ none → new_keyring p key es ≡ none
  unfolding new_keyring new_keyring_of
  new_keyring-none key es k = rw (k, new_keyring_of) refl

  -- A new key ring writes under its primary key, and has it.
  pub keyring-primary :
      (key : Bytes) (es : List Bytes) (kr : Keyring) (id : Bytes)
      → key_id p key ≡ some id
      → new_keyring p key es ≡ some kr
      → (kr.primary ≡ id) × (lookup id kr.keys ≡ some key)
  unfolding lookup
  keyring-primary key es kr id k h =
      let first : Keyring = record { primary = id; order = id ∷ []; keys = (id, key) ∷ [] } in
      let a = sym (new_keyring_lem key es id k) ∙ h in
      (
        primary-add_extras first es kr a,
        lookup-add_extras id key first es kr (rw (bytes_eq_refl id) refl) a,
      )

  Agrees-hold :
      (id key : Bytes) (kr : Keyring) (i e : Bytes)
      → Agrees id key kr
      → (i ≡ id → e ≡ key)
      → Agrees id key (hold kr i e)
  unfolding hold lookup
  Agrees-hold id key kr i e g s k h = elim (Option-cases (lookup i kr.keys)) [
    | inr (m, x) ↦ g k (rw (← h) (rw (x, hold) refl))
    | inl x ↦ elim (Bool-cases (bytes_eq i id)) [
      | inr b ↦ g k (rw (← h) (rw (x, hold) (rw b refl)))
      | inl b ↦
          let y : some e ≡ some k = rw (← h) (rw (x, hold) (rw b refl)) in
          sym (some-injective _ _ y) ∙ s ((bytes_eq_iff i id).0 b)
    ]
  ]

  hold-own :
      (id key : Bytes) (kr : Keyring)
      → Agrees id key kr
      → lookup id (hold kr id key).keys ≡ some key
  unfolding hold lookup
  hold-own id key kr g = elim (Option-cases (lookup id kr.keys)) [
    | inl x ↦ rw (x, hold) (rw (bytes_eq_refl id) refl)
    | inr (k, x) ↦ rw (x, hold) (x ∙ ap some (g k x))
  ]

  -- A key of the list is held under its id, unless another key has the same id.
  held-add_extras :
      (id key : Bytes) (kr : Keyring) (es : List Bytes) (kr' : Keyring)
      → key_id p key ≡ some id
      → Agrees id key kr
      → All (λ e. key_id p e ≡ some id → e ≡ key) es
      → any (λ e. bytes_eq e key) es ≡ true
      → add_extras (key_id p) kr es ≡ some kr'
      → lookup id kr'.keys ≡ some key
  unfolding add_extras hold lookup
  held-add_extras id key kr [] kr' k g u m a = absurd (cc)
  held-add_extras id key kr (e ∷ es) kr' k g u m a = elim (Option-cases (key_id p e)) [
    | inl x ↦ let y : none ≡ some kr' = rw (← a) (rw (x, add_extras) refl) in absurd (cc)
    | inr (i, x) ↦
        let rest : add_extras (key_id p) (hold kr i e) es ≡ some kr' =
          rw (← a) (rw (x, add_extras) refl) in
        elim (Bool-cases (bytes_eq e key)) [
          | inr b ↦
              held-add_extras id key (hold kr i e) es kr' k
                (Agrees-hold id key kr i e g (λ s. u.0 (x ∙ ap some s))) u.1 (ground arith) rest
          | inl b ↦
              let same : i ≡ id =
                some-injective _ _ (sym x ∙ ap (key_id p) ((bytes_eq_iff e key).0 b) ∙ k) in
              let own =
                subst (λ y. lookup id (hold kr id y).keys ≡ some key)
                  (sym ((bytes_eq_iff e key).0 b)) (hold-own id key kr g) in
              let l = subst (λ j. lookup id (hold kr j e).keys ≡ some key) (sym same) own in
              lookup-add_extras id key (hold kr i e) es kr' l rest
        ]
  ]

  -- A ring holds every key it is made of, unless another one of them has the same id.
  pub keyring-held :
      (first : Bytes) (es : List Bytes) (kr : Keyring) (key id : Bytes)
      → key_id p key ≡ some id
      → new_keyring p first es ≡ some kr
      → any (λ e. bytes_eq e key) (first ∷ es) ≡ true
      → All (λ e. key_id p e ≡ some id → e ≡ key) (first ∷ es)
      → lookup id kr.keys ≡ some key
  unfolding lookup
  keyring-held first es kr key id k h m u = elim (Option-cases (key_id p first)) [
    | inl x ↦ let y : none ≡ some kr = sym (new_keyring-none first es x) ∙ h in absurd (cc)
    | inr (i, x) ↦
        let start : Keyring = record { primary = i; order = i ∷ []; keys = (i, first) ∷ [] } in
        let a = sym (new_keyring_lem first es i x) ∙ h in
        elim (Bool-cases (bytes_eq first key)) [
          | inl b ↦
              let f = (bytes_eq_iff first key).0 b in
              let same : i ≡ id = some-injective _ _ (sym x ∙ ap (key_id p) f ∙ k) in
              lookup-add_extras id key start es kr (rw (same, bytes_eq_refl id) (ap some f)) a
          | inr b ↦
              held-add_extras id key start es kr k (λ z q. agrees i z x q) u.1 (ground arith) a
        ]
  ]
    where
      agrees :
          (i z : Bytes) → key_id p first ≡ some i → lookup id ((i, first) ∷ []) ≡ some z → z ≡ key
      agrees i z x q = elim (Bool-cases (bytes_eq i id)) [
        | inr b ↦ let y : none ≡ some z = rw (← q) (rw b refl) in absurd (cc)
        | inl b ↦
            let y : some first ≡ some z = rw (← q) (rw b refl) in
            sym (some-injective _ _ y) ∙ u.0 (x ∙ ap some ((bytes_eq_iff i id).0 b))
      ]
