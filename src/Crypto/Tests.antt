-- ===== src/Crypto/Tests.antt =====
-- A cipher that adds a number made of the key to every byte, and key rings of two keys.
use indelible.Common.{
  ℕ, ◌+◌, ◌-◌, ◌%◌, ◌<◌, ◌≡◌, ◌⊎◌, refl, ap₂, true, [], ◌∷◌, some, some-injective, arith, map, sum,
  subst, any, Bytes, bytes_eq, text,
}
use indelible.Crypto.Hex.{AllBytes, hex_encode, hex_decode}
use indelible.Crypto.{
  Primitives, Lawful, Nonce, Keyring, new_keyring, new_keyring_of, add_extras, hold, lookup, key_id,
  hex_key, encrypt, encrypt_envelope, decrypt_envelope, decrypt, cut, skip, primary_key,
}
use indelible.Crypto.Envelope.{decrypt_envelope-encrypt_envelope}
use indelible.Common.Sql.{update}
use indelible.Crypto.Rotate.{
  Vault, rotate_encryption_key, rotate_tables, reencrypt, reencrypt_one, write_all,
}
use indelible.Crypto.Rotated.{Rotated, Refused, rotate_encryption_key-Rotated}

abbrev shift : Bytes → ℕ
shift key = sum key % 256

abbrev toy : Primitives
toy = record {
  sha256 = λ b. shift b ∷ 1 ∷ 2 ∷ 3 ∷ 4 ∷ [];
  seal = λ key nonce t. map (λ x. (x + shift key) % 256) t;
  unseal = λ key nonce c. some (map (λ x. (x + (256 - shift key)) % 256) c);
}

map-AllBytes : (s : ℕ) (xs : Bytes) → AllBytes (map (λ x. (x + s) % 256) xs)
map-AllBytes s [] = tt
map-AllBytes s (x ∷ xs) = (omega arith, map-AllBytes s xs)

unshift :
    (s : ℕ) (xs : Bytes)
    → s < 256
    → AllBytes xs
    → map (λ x. (x + (256 - s)) % 256) (map (λ x. (x + s) % 256) xs) ≡ xs
unshift s [] h a = refl
unshift s (x ∷ xs) h a =
    let b = a.0 in
    let e : ((x + s) % 256 + (256 - s)) % 256 ≡ x = omega arith in
    ap₂ (λ y ys. y ∷ ys) e (unshift s xs h a.1)

toy-Lawful : Lawful toy
toy-Lawful = record {
  opened = λ key nonce t a. rw (unshift (shift key) t (omega arith) a) refl;
  sealed = λ key nonce t. map-AllBytes (shift key) t;
  unsealed =
      λ key nonce c t e. subst AllBytes (some-injective _ _ e) (map-AllBytes (256 - shift key) c);
}

-- 32 bytes each, in hexadecimal.
abbrev old_key : Bytes
old_key = text "0000000000000000000000000000000000000000000000000000000000000001"

abbrev new_key : Bytes
new_key = text "00000000000000000000000000000000000000000000000000000000000000A2"

abbrev nonce : Bytes
nonce = 1 ∷ 2 ∷ 3 ∷ 4 ∷ 5 ∷ 6 ∷ 7 ∷ 8 ∷ 9 ∷ 10 ∷ 11 ∷ 255 ∷ []

nonce-Nonce : Nonce nonce
nonce-Nonce = record { of_size = refl; of_bytes = omega arith }

abbrev old_ring : Keyring
old_ring = record {
  primary = text "01010203";
  order = text "01010203" ∷ [];
  keys = (text "01010203", old_key) ∷ [];
}

abbrev both_rings : Keyring
both_rings = record {
  primary = text "01010203";
  order = text "01010203" ∷ text "a2010203" ∷ [];
  keys = (text "a2010203", new_key) ∷ (text "01010203", old_key) ∷ [];
}

abbrev new_ring : Keyring
new_ring = record {
  primary = text "a2010203";
  order = text "a2010203" ∷ [];
  keys = (text "a2010203", new_key) ∷ [];
}

old_ring_made : new_keyring toy old_key [] ≡ some old_ring
unfolding new_keyring new_keyring_of add_extras key_id hex_key hex_decode hex_encode
old_ring_made = refl

both_rings_made : new_keyring toy old_key (new_key ∷ []) ≡ some both_rings
unfolding new_keyring new_keyring_of add_extras hold lookup key_id hex_key hex_decode hex_encode
    bytes_eq
both_rings_made = refl

new_ring_made : new_keyring toy new_key [] ≡ some new_ring
unfolding new_keyring new_keyring_of add_extras key_id hex_key hex_decode hex_encode
new_ring_made = refl

distinct_ids : key_id toy new_key ≡ key_id toy old_key → new_key ≡ old_key
unfolding key_id hex_key hex_decode hex_encode
distinct_ids e = absurd (cc)

secret-AllBytes : AllBytes (text "secret")
secret-AllBytes = omega arith

old_key_in : any (λ e. bytes_eq e old_key) (old_key ∷ new_key ∷ []) ≡ true
unfolding bytes_eq
old_key_in = refl

decrypt_envelope-encrypt_envelope_example :
    (envelope : Bytes) × (encrypt_envelope toy old_ring nonce (text "secret") ≡ some envelope)
    × (decrypt_envelope toy both_rings envelope ≡ some (text "secret"))
decrypt_envelope-encrypt_envelope_example =
    decrypt_envelope-encrypt_envelope toy old_key [] old_ring old_key (new_key ∷ []) both_rings
      nonce (text "secret") toy-Lawful nonce-Nonce secret-AllBytes old_ring_made both_rings_made
      old_key_in ((λ _. refl), (distinct_ids, tt))

-- A wallet of the old key's envelope, and a provider from before the envelopes.
abbrev vault : Vault
vault = record {
  wallets =
      record { id = 7; secret = text "01010203:0102030405060708090a0bff7465" }
      ∷ record { id = 9; secret = text "a2010203:0102030405060708090a0bff" }
      ∷ [];
  oidc_providers = record { id = 7; secret = text "0102030405060708090a0bff74" } ∷ [];
}

rotate_encryption_key-Rotated_example :
    Rotated toy both_rings new_ring vault
      (rotate_encryption_key toy vault old_key new_key (λ _. nonce))
    ⊎ Refused toy both_rings vault (rotate_encryption_key toy vault old_key new_key (λ _. nonce))
rotate_encryption_key-Rotated_example =
    rotate_encryption_key-Rotated toy vault old_key new_key (λ _. nonce) both_rings new_ring
      toy-Lawful (λ _. nonce-Nonce) both_rings_made new_ring_made (refl, (refl, tt)) (refl, tt)

-- The rotation of these rows goes through.
rotated_wallets : (rotate_encryption_key toy vault old_key new_key (λ _. nonce)).0.wallets ≡ (
    record { id = 7; secret = text "a2010203:0102030405060708090a0bff1506" }
    ∷ record { id = 9; secret = text "a2010203:0102030405060708090a0bff" }
    ∷ [])
unfolding rotate_encryption_key rotate_tables reencrypt reencrypt_one write_all update cut lookup
    decrypt_envelope decrypt encrypt encrypt_envelope primary_key new_keyring new_keyring_of
    add_extras hold key_id hex_key hex_decode hex_encode bytes_eq skip
rotated_wallets = refl
