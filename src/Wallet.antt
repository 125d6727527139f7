-- ===== src/Wallet.antt =====
-- internal/services/wallet.go: the wallets, of which one is the default. Their keys are encrypted by a
-- key ring of Crypto.
pub mod Ids
pub mod Found
pub mod Default
mod Tests
use indelible.Common.{
  ℕ, suc, ◌+◌, Bool, true, false, List, [], ◌∷◌, ◌++◌, Option, none, some, ◌==◌, if◌then◌else◌,
  find, any, elem, length, Bytes, Result, ok, err,
}
use indelible.Common.Sql.{update, delete}
use indelible.Crypto.{Primitives, Keyring, encrypt_envelope, decrypt_envelope}

pub record Wallet : Type 0 where
  pub id : ℕ
  pub name : Bytes
  pub address : Bytes
  pub encrypted_key : Bytes
  pub is_default : Bool
  pub payment_balance : Bytes
  pub gas_balance : Bytes
  pub updated_at : ℕ

-- `paid` are the wallet_ids of the table transactions, which refer to the wallets.
pub record Wallets : Type 0 where
  pub wallets : List Wallet
  pub wallet_seq : ℕ
  pub paid : List ℕ

-- `encrypt_error` is an error of the key ring that the code passes on.
pub data WalletError : Type 0 where
  wallet_not_found no_default_wallet delete_default encrypt_error constraint_error : WalletError

abbrev pub has_id : ℕ → Wallet → Bool
has_id id w = w.id == id

abbrev pub or_error : WalletError → Option Wallet → Result WalletError Wallet
or_error x none = err x
or_error x (some w) = ok w

unfoldable pub get_wallet : Wallets → ℕ → Result WalletError Wallet
get_wallet db id = or_error wallet_not_found (find (has_id id) db.wallets)

unfoldable pub get_default : Wallets → Result WalletError Wallet
get_default db = or_error no_default_wallet (find (λ w. w.is_default) db.wallets)

-- The row of a new wallet: the default where it is the first. The balances are the columns' defaults.
abbrev pub insert_wallet : Wallets → Bytes → Bytes → Bytes → ℕ → Wallets
insert_wallet db name address encrypted_key now = record db {
  wallets =
      db.wallets
      ++ record {
        id = suc db.wallet_seq;
        name = name;
        address = address;
        encrypted_key = encrypted_key;
        is_default = length db.wallets == 0;
        payment_balance = 48 ∷ [];
        gas_balance = 48 ∷ [];
        updated_at = now;
      }
        ∷ [];
  wallet_seq = suc db.wallet_seq;
}

unfoldable pub create_wallet :
    Primitives
    → Keyring
    → Bytes
    → Wallets
    → Bytes
    → Bytes
    → Bytes
    → ℕ
    → Wallets × Result WalletError Wallet
unfolding get_wallet
create_wallet p kr nonce db name address private_key now =
    elim (encrypt_envelope p kr nonce private_key) [
      | none ↦ (db, err encrypt_error)
      | some e ↦
          let db' = insert_wallet db name address e now in (db', get_wallet db' (suc db.wallet_seq))
    ]

unfoldable pub set_default : Wallets → ℕ → ℕ → Wallets × Option WalletError
set_default db id now =
    if any (has_id id) db.wallets
    then (
      record db {
        wallets =
            update (has_id id) (λ w. record w { is_default = true; updated_at = now })
              (update (λ _. true) (λ w. record w { is_default = false }) db.wallets);
      },
      none,
    )
    else (db, some wallet_not_found)

-- The foreign key refuses the deletion of a wallet that has paid.
unfoldable pub delete_wallet : Wallets → ℕ → Wallets × Option WalletError
delete_wallet db id = elim (find (has_id id) db.wallets) [
  | none ↦ (db, some wallet_not_found)
  | some w ↦
      if w.is_default
      then (db, some delete_default)
      else if elem id db.paid
      then (db, some constraint_error)
      else (record db { wallets = delete (has_id id) db.wallets }, none)
]

unfoldable pub decrypt_key : Primitives → Keyring → Wallet → Option Bytes
decrypt_key p kr w = decrypt_envelope p kr w.encrypted_key

unfoldable pub update_balance : Wallets → ℕ → Bytes → Bytes → ℕ → Wallets
update_balance db id payment_balance gas_balance now = record db {
  wallets =
      update (has_id id)
        (λ w. record w {
          payment_balance = payment_balance;
          gas_balance = gas_balance;
          updated_at = now;
        })
        db.wallets;
}
