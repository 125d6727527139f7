-- ===== src/Crypto.antt =====
-- internal/crypto/encrypt.go and keyring.go: AES-256-GCM under hex keys, and the ring of keys whose
-- envelopes name the key they were written under. SHA-256 and the cipher are the operations of
-- `Primitives`; a random nonce is an argument.
pub mod Hex
pub mod Cipher
pub mod Rings
pub mod Envelope
pub mod Rotate
pub mod Rotated
mod Tests
use indelible.Common.{
  ℕ, zero, suc, ◌≡◌, ◌≤◌, Bool, true, false, List, [], ◌∷◌, ◌++◌, Option, none, some, map, ◌==◌,
  ltb, if◌then◌else◌, length, take, Bytes, bytes_eq,
}
use indelible.Crypto.Hex.{hex_encode, hex_decode, AllBytes}

-- crypto/sha256, and Seal and Open of cipher.NewGCM over a key of 32 bytes, with no additional data.
pub record Primitives : Type 0 where
  pub sha256 : Bytes → Bytes
  pub seal : Bytes → Bytes → Bytes → Bytes
  pub unseal : Bytes → Bytes → Bytes → Option Bytes

-- What the documentation of GCM says: what is sealed is opened, and both are bytes.
pub record Lawful (p : Primitives) : Type 0 where
  pub opened :
      (key nonce text : Bytes)
      → AllBytes text
      → p.unseal key nonce (p.seal key nonce text) ≡ some text
  pub sealed : (key nonce text : Bytes) → AllBytes (p.seal key nonce text)
  pub unsealed : (key nonce c text : Bytes) → p.unseal key nonce c ≡ some text → AllBytes text

-- NonceSize of GCM.
abbrev pub nonce_size : ℕ
nonce_size = 12

pub record Nonce (nonce : Bytes) : Type 0 where
  pub of_size : length nonce ≡ 12
  pub of_bytes : AllBytes nonce

-- `s[n:]`.
unfoldable pub skip : ℕ → Bytes → Bytes
skip zero xs = xs
skip (suc n) [] = []
skip (suc n) (x ∷ xs) = skip n xs

unfoldable pub hex_key : Bytes → Option Bytes
hex_key key = elim (hex_decode key) [
  | none ↦ none
  | some b ↦ if length b == 32 then some b else none
]

-- `strings.Cut` at a colon.
unfoldable pub cut : Bytes → Option (Bytes × Bytes)
cut [] = none
cut (c ∷ cs) =
    let rest = cut cs in
    if c == 58 then some ([], cs) else elim rest [ none ↦ none | some (a, b) ↦ some (c ∷ a, b) ]

-- A Go map from strings to strings.
unfoldable pub lookup : Bytes → List (Bytes × Bytes) → Option Bytes
lookup id [] = none
lookup id ((k, v) ∷ es) = if bytes_eq k id then some v else lookup id es

pub record Keyring : Type 0 where
  pub primary : Bytes
  pub order : List Bytes
  pub keys : List (Bytes × Bytes)

-- `k.keys[id]`, the empty string for a missing key.
abbrev pub material : Keyring → Bytes → Bytes
material kr id = elim (lookup id kr.keys) [ none ↦ [] | some k ↦ k ]

unfoldable pub primary_key : Keyring → Bytes
unfolding lookup
primary_key kr = material kr kr.primary

-- `k.order[1:]`, with what the map has for each id.
unfoldable pub previous : Keyring → List Bytes
unfolding lookup
previous kr = elim kr.order [ [] ↦ [] | id ∷ ids ↦ map (material kr) ids ]

-- One round of the loop over the extra keys.
unfoldable pub hold : Keyring → Bytes → Bytes → Keyring
unfolding lookup
hold kr id e = elim (lookup id kr.keys) [
  | some k ↦ kr
  | none ↦ record kr { order = kr.order ++ id ∷ []; keys = (id, e) ∷ kr.keys }
]

unfoldable pub add_extras : (Bytes → Option Bytes) → Keyring → List Bytes → Option Keyring
add_extras id_fn kr [] = some kr
add_extras id_fn kr (e ∷ es) = elim (id_fn e) [
  | none ↦ none
  | some id ↦ add_extras id_fn (hold kr id e) es
]

unfoldable pub new_keyring_of : (Bytes → Option Bytes) → Bytes → List Bytes → Option Keyring
unfolding add_extras
new_keyring_of id_fn primary extras = elim (id_fn primary) [
  | none ↦ none
  | some id ↦
      add_extras id_fn (record { primary = id; order = id ∷ []; keys = (id, primary) ∷ [] }) extras
]

module _ (p : Primitives) where
  unfoldable pub key_id : Bytes → Option Bytes
  unfolding hex_key hex_encode
  key_id key = elim (hex_key key) [ none ↦ none | some b ↦ some (take 8 (hex_encode (p.sha256 b))) ]

  unfoldable pub raw_key_id : Bytes → Option Bytes
  unfolding hex_encode
  raw_key_id secret = some (take 8 (hex_encode (p.sha256 secret)))

  unfoldable pub new_keyring : Bytes → List Bytes → Option Keyring
  unfolding new_keyring_of key_id
  new_keyring primary extras = new_keyring_of key_id primary extras

  unfoldable pub new_keyring_raw : Bytes → List Bytes → Option Keyring
  unfolding new_keyring_of raw_key_id
  new_keyring_raw primary extras = new_keyring_of raw_key_id primary extras

  -- The functions Encrypt and Decrypt of the package.
  unfoldable pub encrypt : Bytes → Bytes → Bytes → Option Bytes
  unfolding hex_key hex_encode
  encrypt key nonce plaintext = elim (hex_key key) [
    | none ↦ none
    | some b ↦ some (hex_encode (nonce ++ p.seal b nonce plaintext))
  ]

  unfoldable pub decrypt : Bytes → Bytes → Option Bytes
  unfolding hex_key hex_decode skip
  decrypt key ciphertext = elim (hex_key key) [
    | none ↦ none
    | some b ↦ elim (hex_decode ciphertext) [
      | none ↦ none
      | some c ↦
          if ltb (length c) nonce_size
          then none
          else p.unseal b (take nonce_size c) (skip nonce_size c)
    ]
  ]

  -- The methods of the key ring.
  unfoldable pub encrypt_envelope : Keyring → Bytes → Bytes → Option Bytes
  unfolding encrypt
  encrypt_envelope kr nonce plaintext = elim (encrypt (primary_key kr) nonce plaintext) [
    | none ↦ none
    | some ct ↦ some (kr.primary ++ 58 ∷ ct)
  ]

  unfoldable pub decrypt_envelope : Keyring → Bytes → Option Bytes
  unfolding cut decrypt
  decrypt_envelope kr envelope = elim (cut envelope) [
    | some (id, payload) ↦ elim (lookup id kr.keys) [ none ↦ none | some key ↦ decrypt key payload ]
    | none ↦ decrypt (primary_key kr) envelope
  ]
