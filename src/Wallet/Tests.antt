-- ===== src/Wallet/Tests.antt =====
-- A first wallet, a second one that becomes the default, and the deletion of the first.
use indelible.Common.{refl, [], ◌∷◌, some, text, List}
use indelible.Crypto.{Primitives, Keyring}
use indelible.Wallet.{Wallets}
use indelible.Wallet.Default.{
  Call, creates, sets_default, deletes, updates_balance, OneDefault, run, run-OneDefault,
}

-- A cipher that leaves its text as it is.
abbrev plain : Primitives
plain = record { sha256 = λ b. b; seal = λ key nonce t. t; unseal = λ key nonce c. some c }

abbrev ring : Keyring
ring = record {
  primary = text "66687aad";
  order = text "66687aad" ∷ [];
  keys =
      (text "66687aad", text "0000000000000000000000000000000000000000000000000000000000000000")
      ∷ [];
}

abbrev no_wallets : Wallets
no_wallets = record { wallets = []; wallet_seq = 0; paid = [] }

abbrev calls : List Call
calls =
    creates (1 ∷ []) (text "a") (text "0x1") (text "key") 1
    ∷ creates (2 ∷ []) (text "b") (text "0x2") (text "key") 2
    ∷ sets_default 2 3
    ∷ deletes 2
    ∷ deletes 1
    ∷ updates_balance 2 (text "5") (text "6") 4
    ∷ []

run-OneDefault_example : OneDefault (run plain ring no_wallets calls)
run-OneDefault_example =
    run-OneDefault plain ring no_wallets calls (record { distinct = tt; given = tt; single = refl })
