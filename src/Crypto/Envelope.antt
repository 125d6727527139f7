-- ===== src/Crypto/Envelope.antt =====
-- Encrypt and Decrypt of different key rings, internal/crypto/keyring.go.
use indelible.Common.{
  ◌≡◌, sym, ◌∙◌, true, List, ◌∷◌, none, some, any, All, All-mono, Bytes, bytes_eq, Option-cases,
  inl, inr,
}
use indelible.Crypto.Hex.{AllBytes}
use indelible.Crypto.{
  Primitives, Lawful, Nonce, Keyring, new_keyring, key_id, encrypt, encrypt_envelope,
  decrypt_envelope,
}
use indelible.Crypto.Cipher.{primary_key-held, decrypt_envelope-held, decrypt_envelope-legacy}
use indelible.Crypto.Rings.{new_keyring-none, keyring-primary, keyring-held}

-- What a key ring encrypts is decrypted by every key ring made of keys among which is the primary key
-- of the first: provided the cipher opens what it seals, the plaintext is a string of bytes, and no
-- other of these keys has that key's id.
pub decrypt_envelope-encrypt_envelope :
    (p : Primitives) (key : Bytes) (extras : List Bytes) (kr : Keyring) (key' : Bytes)
    (extras' : List Bytes) (kr' : Keyring) (nonce plaintext : Bytes)
    → Lawful p
    → Nonce nonce
    → AllBytes plaintext
    → new_keyring p key extras ≡ some kr
    → new_keyring p key' extras' ≡ some kr'
    → any (λ e. bytes_eq e key) (key' ∷ extras') ≡ true
    → All (λ e. key_id p e ≡ key_id p key → e ≡ key) (key' ∷ extras')
    → (envelope : Bytes) × (encrypt_envelope p kr nonce plaintext ≡ some envelope)
      × (decrypt_envelope p kr' envelope ≡ some plaintext)
decrypt_envelope-encrypt_envelope p key extras kr key' extras' kr' nonce plaintext l n t w r m u =
    elim (Option-cases (key_id p key)) [
      | inl x ↦ let y : none ≡ some kr = sym (new_keyring-none p key extras x) ∙ w in absurd (cc)
      | inr (id, x) ↦
          let (e, h) = keyring-primary p key extras kr id x w in
          let u' = All-mono (key' ∷ extras') (λ y g s. g (s ∙ sym x)) u in
          decrypt_envelope-held p kr kr' key id nonce plaintext l n t x e h
            (keyring-held p key' extras' kr' key id x r m u')
    ]

-- What Encrypt wrote under a key alone, before there were envelopes, every key ring with that primary
-- key decrypts: provided the cipher opens what it seals and the plaintext is a string of bytes.
decrypt_envelope-encrypt :
    (p : Primitives) (key : Bytes) (extras : List Bytes) (kr : Keyring) (nonce plaintext : Bytes)
    → Lawful p
    → Nonce nonce
    → AllBytes plaintext
    → new_keyring p key extras ≡ some kr
    → (ct : Bytes) × (encrypt p key nonce plaintext ≡ some ct)
      × (decrypt_envelope p kr ct ≡ some plaintext)
decrypt_envelope-encrypt p key extras kr nonce plaintext l n t w =
    elim (Option-cases (key_id p key)) [
      | inl x ↦ let y : none ≡ some kr = sym (new_keyring-none p key extras x) ∙ w in absurd (cc)
      | inr (id, x) ↦
          let (e, h) = keyring-primary p key extras kr id x w in
          decrypt_envelope-legacy p kr key id nonce plaintext l n t x
            (primary_key-held p kr key id e h)
    ]
