-- ===== src/Token.antt =====
-- internal/services/token.go: API tokens, their validation, use and revocation. The password hash
-- is bcrypt's, a library that the code only calls: its comparison is the parameter `matches`. A SELECT
-- without ORDER BY returns its rows in an order that is the parameter `arrange`.
pub mod Validity
mod Tests
use indelible.Common.{
  ℕ, suc, ◌+◌, Bool, true, false, not, ◌&&◌, List, [], ◌∷◌, ◌++◌, Option, none, some, ◌==◌, ltb,
  if◌then◌else◌, find, elem, any, keep, Bytes, bytes_eq, Result, ok, err, text,
}
use indelible.Common.Sql.{update, affected}
use indelible.Upload.Marks.{is_empty}

pub record Token : Type 0 where
  pub id : ℕ
  pub uuid : Bytes
  pub name : Bytes
  pub description : Bytes
  pub token_hash : Bytes
  pub user_id : ℕ
  pub permissions : Bytes
  pub department : Option Bytes
  pub max_file_size_bytes : Option ℕ
  pub allowed_file_types : Option Bytes
  pub expires_at : Option ℕ
  pub revoked_at : Option ℕ
  pub revoked_by : Option ℕ
  pub revoke_reason : Option Bytes
  pub usage_count : ℕ
  pub last_used_at : Option ℕ
  pub created_at : ℕ

-- `users` are the ids of the table users, which tokens refer to.
pub record Tokens : Type 0 where
  pub rows : List Token
  pub seq : ℕ
  pub users : List ℕ

pub data TokenError : Type 0 where
  token_not_found constraint_error : TokenError

-- What `Create` is given; the secret's hash and the uuid are drawn by its caller in the model.
pub record NewToken : Type 0 where
  pub uuid : Bytes
  pub token_hash : Bytes
  pub user_id : ℕ
  pub name : Bytes
  pub description : Bytes
  pub permissions : Bytes
  pub department : Bytes
  pub max_file_size : Option ℕ
  pub allowed_types : Bytes
  pub expires_at : Option ℕ

-- A Go string that is stored as NULL where it is empty.
abbrev pub null_string : Bytes → Option Bytes
null_string s = if is_empty s then none else some s

abbrev pub minted : NewToken → ℕ → ℕ → Token
minted n id now = record {
  id = id;
  uuid = n.uuid;
  name = n.name;
  description = n.description;
  token_hash = n.token_hash;
  user_id = n.user_id;
  permissions = if is_empty n.permissions then text "[\"read\"]" else n.permissions;
  department = null_string n.department;
  max_file_size_bytes = n.max_file_size;
  allowed_file_types = null_string n.allowed_types;
  expires_at = n.expires_at;
  revoked_at = none;
  revoked_by = none;
  revoke_reason = none;
  usage_count = 0;
  last_used_at = none;
  created_at = now;
}

unfoldable pub get_token : Tokens → ℕ → Result TokenError Token
get_token s id = elim (find (λ t. t.id == id) s.rows) [ none ↦ err token_not_found | some t ↦ ok t ]

unfoldable pub get_token_by_uuid : Tokens → Bytes → Result TokenError Token
get_token_by_uuid s uuid = elim (find (λ t. bytes_eq t.uuid uuid) s.rows) [
  | none ↦ err token_not_found
  | some t ↦ ok t
]

unfoldable pub create_token : Tokens → NewToken → ℕ → Tokens × Result TokenError Token
unfolding get_token
create_token s n now =
    let id = suc s.seq in
    let s' = record s { rows = s.rows ++ minted n id now ∷ []; seq = id } in (s', get_token s' id)

abbrev pub is_null {ℓ} : {A : Type ℓ} → Option A → Bool
is_null none = true
is_null (some _) = false

-- `ExpiresAt.Valid && time.Now().After(ExpiresAt.Time)`.
abbrev pub is_expired : ℕ → Option ℕ → Bool
is_expired now none = false
is_expired now (some t) = ltb t now

module _ (matches : Bytes → Bytes → Bool) where
  -- The loop over the rows: an expired token is skipped, the first whose hash matches is returned.
  unfoldable pub first_match : ℕ → Bytes → List Token → Result TokenError Token
  first_match now secret [] = err token_not_found
  first_match now secret (t ∷ ts) =
      if is_expired now t.expires_at
      then first_match now secret ts
      else if matches t.token_hash secret
      then ok t
      else first_match now secret ts

  unfoldable pub validate_secret :
      (List Token → List Token) → Tokens → Bytes → ℕ → Result TokenError Token
  unfolding first_match
  validate_secret arrange s secret now =
      first_match now secret (arrange (keep (λ t. is_null t.revoked_at) s.rows))

unfoldable pub record_usage : Tokens → ℕ → ℕ → Tokens
record_usage s id now = record s {
  rows =
      update (λ t. t.id == id)
        (λ t. record t { usage_count = t.usage_count + 1; last_used_at = some now }) s.rows;
}

unfoldable pub nullable_revoked_by : ℕ → Option ℕ
nullable_revoked_by id = if id == 0 then none else some id

-- Whether a value breaks the foreign key to the users; NULL does not.
abbrev pub is_dangling : List ℕ → Option ℕ → Bool
is_dangling users none = false
is_dangling users (some u) = not (elem u users)

-- The UPDATE that the three revocations share, on the rows of their WHERE clause. It fails where it
-- would write a revoking user who does not exist.
unfoldable pub revoke_where : (Token → Bool) → Tokens → ℕ → Bytes → ℕ → Tokens × Result TokenError ℕ
unfolding nullable_revoked_by
revoke_where p s revoked_by reason now =
    let n = affected (λ t. p t && is_null t.revoked_at) s.rows in
    if is_dangling s.users (nullable_revoked_by revoked_by) && not (n == 0)
    then (s, err constraint_error)
    else (
      record s {
        rows =
            update (λ t. p t && is_null t.revoked_at)
              (λ t. record t {
                revoked_at = some now;
                revoked_by = nullable_revoked_by revoked_by;
                revoke_reason = some reason;
              })
              s.rows;
      },
      ok n,
    )

-- The error of Revoke: that of the UPDATE, or that no row was affected.
abbrev pub not_found_at_zero : Result TokenError ℕ → Option TokenError
not_found_at_zero (err x) = some x
not_found_at_zero (ok n) = if n == 0 then some token_not_found else none

unfoldable pub revoke : Tokens → ℕ → ℕ → Bytes → ℕ → Tokens × Option TokenError
unfolding revoke_where
revoke s id revoked_by reason now =
    let (s', r) = revoke_where (λ t. t.id == id) s revoked_by reason now in
    (s', not_found_at_zero r)

unfoldable pub revoke_all_by_user : Tokens → ℕ → ℕ → Bytes → ℕ → Tokens × Result TokenError ℕ
unfolding revoke_where
revoke_all_by_user s user_id revoked_by reason now =
    revoke_where (λ t. t.user_id == user_id) s revoked_by reason now

-- No statement runs for an empty list of ids.
unfoldable pub bulk_revoke : Tokens → List ℕ → ℕ → Bytes → ℕ → Tokens × Result TokenError ℕ
unfolding revoke_where
bulk_revoke s [] revoked_by reason now = (s, ok 0)
bulk_revoke s (i ∷ ids) revoked_by reason now =
    revoke_where (λ t. elem t.id (i ∷ ids)) s revoked_by reason now
