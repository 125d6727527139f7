-- ===== src/Crypto/Cipher.antt =====
-- Encrypt and Decrypt, of internal/crypto/encrypt.go and of the key ring, for one key.
use indelible.Common.{
  ℕ, zero, suc, ◌+◌, ◌≡◌, ◌<◌, refl, ap, subst, ◌∙◌, Bool, true, false, not, [], ◌∷◌, ◌++◌, none,
  some, some-injective, arith, ◌==◌, ltb, length, take, all, All-append, Bytes, Bool-cases,
  Option-cases, inl, inr, length-append,
}
use indelible.Crypto.Hex.{
  hex_encode, hex_decode, hex_decode-hex_encode, no_colon-hex_encode, AllBytes,
}
use indelible.Crypto.{
  Primitives, Lawful, Nonce, skip, cut, hex_key, Keyring, lookup, key_id, primary_key, encrypt,
  decrypt, encrypt_envelope, decrypt_envelope,
}

abbrev no_colon : Bytes → Bool
no_colon xs = all (λ c. not (c == 58)) xs

cut-append : (id rest : Bytes) → no_colon id ≡ true → cut (id ++ 58 ∷ rest) ≡ some (id, rest)
unfolding cut
cut-append [] rest h = refl
cut-append (c ∷ cs) rest h =
    let i = cut-append cs rest (ground arith) in
    let n : (c == 58) ≡ false = ground arith in rw (n, i) refl

cut-no_colon : (xs : Bytes) → no_colon xs ≡ true → cut xs ≡ none
unfolding cut
cut-no_colon [] h = refl
cut-no_colon (c ∷ cs) h =
    let i = cut-no_colon cs (ground arith) in
    let n : (c == 58) ≡ false = ground arith in rw (n, i) refl

no_colon-take : (n : ℕ) (xs : Bytes) → no_colon xs ≡ true → no_colon (take n xs) ≡ true
no_colon-take zero xs h = refl
no_colon-take (suc n) [] h = refl
no_colon-take (suc n) (x ∷ xs) h = let i = no_colon-take n xs (ground arith) in ground arith

take-length : (n : ℕ) (xs ys : Bytes) → length xs ≡ n → take n (xs ++ ys) ≡ xs
take-length zero [] ys h = refl
take-length zero (x ∷ xs) ys h = absurd (omega arith)
take-length (suc n) [] ys h = absurd (omega arith)
take-length (suc n) (x ∷ xs) ys h = ap (λ l. x ∷ l) (take-length n xs ys (omega arith))

skip-length : (n : ℕ) (xs ys : Bytes) → length xs ≡ n → skip n (xs ++ ys) ≡ ys
unfolding skip
skip-length zero [] ys h = refl
skip-length zero (x ∷ xs) ys h = absurd (omega arith)
skip-length (suc n) [] ys h = absurd (omega arith)
skip-length (suc n) (x ∷ xs) ys h = skip-length n xs ys (omega arith)

not_short : (n : ℕ) → ltb (12 + n) 12 ≡ false
not_short n = ground arith

module _ (p : Primitives) where
  key_id-some :
      (key id : Bytes)
      → key_id p key ≡ some id
      → (b : Bytes) × (hex_key key ≡ some b) × (no_colon id ≡ true)
  unfolding key_id
  key_id-some key id h = elim (Option-cases (hex_key key)) [
    | inl e ↦ let y : none ≡ some id = rw (← h) (rw (e, key_id) refl) in absurd (cc)
    | inr (b, e) ↦
        let y : some (take 8 (hex_encode (p.sha256 b))) ≡ some id =
          rw (← h) (rw (e, key_id) refl) in
        (
          b,
          e,
          subst (λ x. no_colon x ≡ true) (some-injective _ _ y)
              (no_colon-take 8 (hex_encode (p.sha256 b)) (no_colon-hex_encode (p.sha256 b))),
        )
  ]

  -- What is sealed under a key is opened under it.
  decrypt-sealed :
      (key b nonce plaintext : Bytes)
      → Lawful p
      → Nonce nonce
      → AllBytes plaintext
      → hex_key key ≡ some b
      → decrypt p key (hex_encode (nonce ++ p.seal b nonce plaintext)) ≡ some plaintext
  unfolding decrypt
  decrypt-sealed key b nonce plaintext l n t h =
      let sealed = p.seal b nonce plaintext in
      let d =
        hex_decode-hex_encode (nonce ++ sealed)
          (All-append (λ x. x < 256) nonce sealed n.of_bytes (l.sealed b nonce plaintext)) in
      let long : ltb (length (nonce ++ sealed)) 12 ≡ false =
        rw (length-append nonce sealed, n.of_size) (not_short (length sealed)) in
      rw
        (
          h,
          d,
          long,
          take-length 12 nonce sealed n.of_size,
          skip-length 12 nonce sealed n.of_size,
          l.opened b nonce plaintext t,
          decrypt,
        )
        refl

  -- What is decrypted are bytes.
  decrypt-AllBytes : (key ct text : Bytes) → Lawful p → decrypt p key ct ≡ some text → AllBytes text
  unfolding decrypt
  decrypt-AllBytes key ct text l h = elim (Option-cases (hex_key key)) [
    | inl x ↦ let y : none ≡ some text = rw (← h) (rw (x, decrypt) refl) in absurd (cc)
    | inr (b, x) ↦ elim (Option-cases (hex_decode ct)) [
      | inl d ↦ let y : none ≡ some text = rw (← h) (rw (x, d, decrypt) refl) in absurd (cc)
      | inr (c, d) ↦ elim (Bool-cases (ltb (length c) 12)) [
        | inl s ↦ let y : none ≡ some text = rw (← h) (rw (x, d, s, decrypt) refl) in absurd (cc)
        | inr s ↦ l.unsealed b (take 12 c) (skip 12 c) text (rw (← h) (rw (x, d, s, decrypt) refl))
      ]
    ]
  ]

  pub decrypt_envelope-AllBytes :
      (kr : Keyring) (ct text : Bytes)
      → Lawful p
      → decrypt_envelope p kr ct ≡ some text
      → AllBytes text
  unfolding decrypt_envelope
  decrypt_envelope-AllBytes kr ct text l h = elim (Option-cases (cut ct)) [
    | inl x ↦ decrypt-AllBytes (primary_key kr) ct text l (rw (← h) (rw (x, decrypt_envelope) refl))
    | inr ((id, payload), x) ↦ elim (Option-cases (lookup id kr.keys)) [
      | inl y ↦
          let z : none ≡ some text = rw (← h) (rw (x, y, decrypt_envelope) refl) in absurd (cc)
      | inr (key, y) ↦
          decrypt-AllBytes key payload text l (rw (← h) (rw (x, y, decrypt_envelope) refl))
    ]
  ]

  encrypt-key :
      (key b nonce plaintext : Bytes)
      → hex_key key ≡ some b
      → encrypt p key nonce plaintext ≡ some (hex_encode (nonce ++ p.seal b nonce plaintext))
  unfolding encrypt
  encrypt-key key b nonce plaintext h = rw (h, encrypt) refl

  pub primary_key-held :
      (kr : Keyring) (key id : Bytes)
      → kr.primary ≡ id
      → lookup id kr.keys ≡ some key
      → primary_key kr ≡ key
  unfolding primary_key
  primary_key-held kr key id e w =
      let x : lookup kr.primary kr.keys ≡ some key = ap (λ i. lookup i kr.keys) e ∙ w in
      ap (λ o. elim o [ none ↦ [] | some k ↦ k ]) x

  -- The ring writes under the key and the id, and the reader has the key under the id.
  pub decrypt_envelope-held :
      (kr kr' : Keyring) (key id nonce plaintext : Bytes)
      → Lawful p
      → Nonce nonce
      → AllBytes plaintext
      → key_id p key ≡ some id
      → kr.primary ≡ id
      → lookup id kr.keys ≡ some key
      → lookup id kr'.keys ≡ some key
      → (envelope : Bytes) × (encrypt_envelope p kr nonce plaintext ≡ some envelope)
        × (decrypt_envelope p kr' envelope ≡ some plaintext)
  unfolding encrypt_envelope decrypt_envelope
  decrypt_envelope-held kr kr' key id nonce plaintext l n t k e w r =
      let (b, h, c) = key_id-some key id k in
      let ct = hex_encode (nonce ++ p.seal b nonce plaintext) in
      (
        id ++ 58 ∷ ct,
        rw (primary_key-held kr key id e w, encrypt-key key b nonce plaintext h, encrypt_envelope)
            (ap (λ i. some (i ++ 58 ∷ ct)) e),
        rw (cut-append id ct c, r, decrypt-sealed key b nonce plaintext l n t h, decrypt_envelope)
            refl,
      )

  -- A ciphertext from before the envelopes is read under the primary key.
  pub decrypt_envelope-legacy :
      (kr : Keyring) (key id nonce plaintext : Bytes)
      → Lawful p
      → Nonce nonce
      → AllBytes plaintext
      → key_id p key ≡ some id
      → primary_key kr ≡ key
      → (ct : Bytes) × (encrypt p key nonce plaintext ≡ some ct)
        × (decrypt_envelope p kr ct ≡ some plaintext)
  unfolding encrypt decrypt_envelope
  decrypt_envelope-legacy kr key id nonce plaintext l n t k e =
      let (b, h, c) = key_id-some key id k in
      let raw = nonce ++ p.seal b nonce plaintext in
      (
        hex_encode raw,
        encrypt-key key b nonce plaintext h,
        rw (cut-no_colon (hex_encode raw) (no_colon-hex_encode raw), e, decrypt_envelope)
            (decrypt-sealed key b nonce plaintext l n t h),
      )
