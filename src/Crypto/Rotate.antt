-- ===== src/Crypto/Rotate.antt =====
-- internal/services/keyrotation.go: RotateEncryptionKey, over the columns of the wallets and of the
-- OIDC providers that hold ciphertexts. The random nonces are numbered in the order of their use.
use indelible.Common.{ℕ, suc, List, [], ◌∷◌, Option, none, some, ◌==◌, length, Bytes}
use indelible.Common.Sql.{update}
use indelible.Crypto.{Primitives, Keyring, new_keyring, key_id, encrypt_envelope, decrypt_envelope}

-- A row with its secret: `encrypted_key` of a wallet, `client_secret` of a provider.
pub record SecretRow : Type 0 where
  pub id : ℕ
  pub secret : Bytes

pub record Vault : Type 0 where
  pub wallets : List SecretRow
  pub oidc_providers : List SecretRow

pub record RotationResult : Type 0 where
  pub wallets : ℕ
  pub oidc_providers : ℕ
  pub old_key_id : Bytes
  pub new_key_id : Bytes

module _ (p : Primitives) where
  -- One row, decrypted and encrypted again.
  unfoldable pub reencrypt_one : Keyring → Keyring → Bytes → Bytes → Option Bytes
  reencrypt_one dec enc nonce secret = elim (decrypt_envelope p dec secret) [
    | none ↦ none
    | some plain ↦ encrypt_envelope p enc nonce plain
  ]

  -- The loop over the rows of a SELECT.
  unfoldable pub reencrypt :
      Keyring → Keyring → (ℕ → Bytes) → ℕ → List SecretRow → Option (List SecretRow)
  unfolding reencrypt_one
  reencrypt dec enc nonces k [] = some []
  reencrypt dec enc nonces k (r ∷ rs) = elim (reencrypt_one dec enc (nonces k) r.secret) [
    | none ↦ none
    | some val ↦ elim (reencrypt dec enc nonces (suc k) rs) [
      | none ↦ none
      | some vs ↦ some (record { id = r.id; secret = val } ∷ vs)
    ]
  ]

-- The loop of `UPDATE … WHERE id = ?`.
unfoldable pub write_all : List SecretRow → List SecretRow → List SecretRow
write_all rows [] = rows
write_all rows (v ∷ vs) =
    write_all (update (λ r. r.id == v.id) (λ r. record r { secret = v.secret }) rows) vs

abbrev pub or_empty : Option Bytes → Bytes
or_empty none = []
or_empty (some b) = b

module _ (p : Primitives) where
  -- The transaction; none where it is rolled back.
  unfoldable pub rotate_tables : Keyring → Keyring → (ℕ → Bytes) → Vault → Option Vault
  unfolding reencrypt write_all
  rotate_tables dec enc nonces v = elim (reencrypt p dec enc nonces 0 v.wallets) [
    | none ↦ none
    | some ws ↦ elim (reencrypt p dec enc nonces (length v.wallets) v.oidc_providers) [
      | none ↦ none
      | some ps ↦ some (record {
        wallets = write_all v.wallets ws;
        oidc_providers = write_all v.oidc_providers ps;
      })
    ]
  ]

  unfoldable pub rotate_encryption_key :
      Vault → Bytes → Bytes → (ℕ → Bytes) → Vault × Option RotationResult
  unfolding rotate_tables
  rotate_encryption_key v old_key new_key nonces = elim (new_keyring p old_key (new_key ∷ [])) [
    | none ↦ (v, none)
    | some dec ↦ elim (new_keyring p new_key []) [
      | none ↦ (v, none)
      | some enc ↦ elim (rotate_tables dec enc nonces v) [
        | none ↦ (v, none)
        | some v' ↦ (
          v',
          some (record {
            wallets = length v.wallets;
            oidc_providers = length v.oidc_providers;
            old_key_id = or_empty (key_id p old_key);
            new_key_id = enc.primary;
          }),
        )
      ]
    ]
  ]
