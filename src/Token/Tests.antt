-- ===== src/Token/Tests.antt =====
-- Two tokens of user 5, the second expired at 50, and one of user 6.
use indelible.Common.{
  ℕ, ◌≡◌, refl, List, [], ◌∷◌, some, none, ◌==◌, Bytes, bytes_eq, text, ok, err, elem, In,
  KeepsRows, inl, inr,
}
use indelible.Token.{
  Token, Tokens, NewToken, minted, token_not_found, constraint_error, validate_secret, revoke,
  revoke_all_by_user, bulk_revoke,
}
use indelible.Token.Validity.{
  Valid, Picks, Revokes, OpensOthers, validate_secret-Picks, validate_secret-revoke,
}

abbrev new_token : ℕ → Bytes → NewToken
new_token user secret = record {
  uuid = [];
  token_hash = secret;
  user_id = user;
  name = text "ci";
  description = [];
  permissions = [];
  department = [];
  max_file_size = none;
  allowed_types = [];
  expires_at = none;
}

abbrev keys : Tokens
keys = record {
  rows =
      minted (new_token 5 (text "a")) 1 0
      ∷ record (minted (new_token 5 (text "b")) 2 0) { expires_at = some 50 }
      ∷ minted (new_token 6 (text "c")) 3 0
      ∷ [];
  seq = 3;
  users = 1 ∷ 5 ∷ 6 ∷ [];
}

-- A table that answers with its first two rows the other way round.
abbrev swapped : List Token → List Token
swapped (a ∷ b ∷ ts) = b ∷ a ∷ ts
swapped ts = ts

swap : (t a b : Token) (ts : List Token) → In t (a ∷ b ∷ ts) → In t (b ∷ a ∷ ts)
swap t a b ts (inl e) = inr (inl e)
swap t a b ts (inr (inl e)) = inl e
swap t a b ts (inr (inr i)) = inr (inr i)

swapped-KeepsRows : KeepsRows swapped
swapped-KeepsRows t [] = (λ i. i, λ i. i)
swapped-KeepsRows t (a ∷ []) = (λ i. i, λ i. i)
swapped-KeepsRows t (a ∷ b ∷ ts) = (swap t b a ts, swap t a b ts)

opened :
    validate_secret bytes_eq swapped keys (text "c") 60 ≡ ok (minted (new_token 6 (text "c")) 3 0)
unfolding validate_secret bytes_eq
opened = refl

expired : validate_secret bytes_eq swapped keys (text "b") 60 ≡ err token_not_found
unfolding validate_secret bytes_eq
expired = refl

-- A revoking user that does not exist fails the foreign key, where a token is affected.
unknown_revoker : (revoke keys 1 9 [] 10).1 ≡ some constraint_error
unfolding revoke
unknown_revoker = refl

no_row : (revoke keys 4 9 [] 10).1 ≡ some token_not_found
unfolding revoke
no_row = refl

validate_secret-Picks_example :
    Picks
      (Valid bytes_eq 60 (text "a"))
      keys.rows
      (validate_secret bytes_eq swapped keys (text "a") 60)
validate_secret-Picks_example =
    validate_secret-Picks bytes_eq swapped swapped-KeepsRows keys (text "a") 60

validate_secret-revoke_example :
    Revokes
      ((revoke keys 1 6 [] 10).1 ≡ some constraint_error)
      (OpensOthers bytes_eq swapped (λ t. t.id == 1) keys (revoke keys 1 6 [] 10).0 (text "a") 60)
      keys
      (revoke keys 1 6 [] 10).0
      6
    × Revokes
        ((revoke_all_by_user keys 5 6 [] 10).1 ≡ err constraint_error)
        (OpensOthers bytes_eq swapped
          (λ t. t.user_id == 5)
          keys
          (revoke_all_by_user keys 5 6 [] 10).0
          (text "a")
          60)
        keys
        (revoke_all_by_user keys 5 6 [] 10).0
        6
    × Revokes
        ((bulk_revoke keys (3 ∷ []) 6 [] 10).1 ≡ err constraint_error)
        (OpensOthers bytes_eq swapped
          (λ t. elem t.id (3 ∷ []))
          keys
          (bulk_revoke keys (3 ∷ []) 6 [] 10).0
          (text "a")
          60)
        keys
        (bulk_revoke keys (3 ∷ []) 6 [] 10).0
        6
validate_secret-revoke_example =
    validate_secret-revoke bytes_eq swapped swapped-KeepsRows keys 1 5 6 (3 ∷ []) [] (text "a") 10
      60
