-- ===== src/Crypto/Rotated.antt =====
-- What RotateEncryptionKey, internal/services/keyrotation.go, does to the rows.
use indelible.Common.{
  ℕ, suc, ◌≡◌, ◌⊎◌, refl, sym, ap, ap₂, subst, ◌∙◌, Bool, true, false, ◌&&◌, List, [], ◌∷◌, Option,
  none, some, map, ◌==◌, elem, all, Distinct, length, arith, Bytes, Option-cases, inl, inr,
}
use indelible.Common.Sql.{update}
use indelible.Crypto.{
  Primitives, Lawful, Nonce, Keyring, lookup, new_keyring, key_id, decrypt_envelope,
}
use indelible.Crypto.Cipher.{decrypt_envelope-AllBytes, decrypt_envelope-held}
use indelible.Crypto.Rings.{keyring-primary, new_keyring-none}
use indelible.Crypto.Rotate.{
  SecretRow, Vault, RotationResult, reencrypt, reencrypt_one, write_all, rotate_tables,
  rotate_encryption_key, or_empty,
}

abbrev ids : List SecretRow → List ℕ
ids rs = map (λ r. r.id) rs

write_all-cons :
    (v : SecretRow) (rs vs : List SecretRow)
    → elem v.id (ids vs) ≡ false
    → write_all (v ∷ rs) vs ≡ (v ∷ write_all rs vs)
unfolding write_all update
write_all-cons v rs [] h = refl
write_all-cons v rs (w ∷ vs) h =
    let n : (v.id == w.id) ≡ false = ground arith in
    rw n (
      write_all-cons v (update (λ r. r.id == w.id) (λ r. record r { secret = w.secret }) rs) vs
        (ground arith))

update-absent :
    (v : SecretRow) (rs : List SecretRow)
    → elem v.id (ids rs) ≡ false
    → update (λ r. r.id == v.id) (λ r. record r { secret = v.secret }) rs ≡ rs
unfolding update
update-absent v [] h = refl
update-absent v (r ∷ rs) h =
    let n : (r.id == v.id) ≡ false = ground arith in
    rw n (ap (λ l. r ∷ l) (update-absent v rs (ground arith)))

-- One new row for each old one, in order, is what is left.
write_all_lem :
    (rs vs : List SecretRow) → Distinct (ids rs) → ids vs ≡ ids rs → write_all rs vs ≡ vs
unfolding write_all update
write_all_lem [] [] d e = refl
write_all_lem [] (v ∷ vs) d e = absurd (cc)
write_all_lem (r ∷ rs) [] d e = absurd (cc)
write_all_lem (r ∷ rs) (v ∷ vs) d e =
    let h : v.id ≡ r.id = cc in
    let t : ids vs ≡ ids rs = cc in
    let n : (r.id == v.id) ≡ true = ground arith in
    let fresh : elem v.id (ids rs) ≡ false = rw h d.0 in
    let fresh' : elem v.id (ids vs) ≡ false = rw t fresh in
    let rest = write_all-cons v rs vs fresh' ∙ ap (λ x. v ∷ x) (write_all_lem rs vs d.1 t) in
    rw (n, update-absent v rs fresh)
      (subst (λ i. write_all (record { id = i; secret = v.secret } ∷ rs) vs ≡ (v ∷ vs)) h rest)

-- Every secret is read by a ring.
abbrev pub readable : Primitives → Keyring → List SecretRow → Bool
readable p kr rs =
    all (λ r. elim (decrypt_envelope p kr r.secret) [ none ↦ false | some s ↦ true ]) rs

-- What a ring reads of the rows.
abbrev pub readings : Primitives → Keyring → List SecretRow → List (ℕ × Option Bytes)
readings p kr rs = map (λ r. (r.id, decrypt_envelope p kr r.secret)) rs

record Rewritten (p : Primitives) (dec enc : Keyring) (rs : List SecretRow)
    (o : Option (List SecretRow)) : Type 0 where
  rows : List SecretRow
  given : o ≡ some rows
  same_ids : ids rows ≡ ids rs
  same : readings p enc rows ≡ readings p dec rs

module _ (p : Primitives) (l : Lawful p) (dec enc : Keyring) (key id : Bytes)
    (k : key_id p key ≡ some id) (e : enc.primary ≡ id) (h : lookup id enc.keys ≡ some key)
    (nonces : ℕ → Bytes) (n : (i : ℕ) → Nonce (nonces i)) where
  reencrypt_lem :
      (i : ℕ) (rs : List SecretRow)
      → ((readable p dec rs ≡ true) × Rewritten p dec enc rs (reencrypt p dec enc nonces i rs))
        ⊎ ((readable p dec rs ≡ false) × (reencrypt p dec enc nonces i rs ≡ none))
  unfolding reencrypt reencrypt_one
  reencrypt_lem i [] = inl (refl, record { rows = []; given = refl; same_ids = refl; same = refl })
  reencrypt_lem i (r ∷ rs) = elim (Option-cases (decrypt_envelope p dec r.secret)) [
    | inl x ↦ inr (rw x refl, rw (x, reencrypt) refl)
    | inr (plain, x) ↦
        let (v, w, b) =
          decrypt_envelope-held p enc enc key id (nonces i) plain l (n i)
            (decrypt_envelope-AllBytes p dec r.secret plain l x) k e h h in
        elim (reencrypt_lem (suc i) rs) [
          | inr (u, y) ↦ inr (rw (x, u) refl, rw (x, w, y, reencrypt) refl)
          | inl (u, y) ↦ inl (
            rw (x, u) refl,
            record {
              rows = record { id = r.id; secret = v } ∷ y.rows;
              given = rw (x, w, y.given, reencrypt) refl;
              same_ids = ap (λ t. r.id ∷ t) y.same_ids;
              same = ap₂ (λ o t. (r.id, o) ∷ t) (b ∙ sym x) y.same;
            },
          )
        ]
  ]

-- The rotation went through: every secret was read by the ring of both keys, and the ring of the new
-- key alone reads of the rows left what that ring read.
pub record Rotated (p : Primitives) (dec enc : Keyring) (v : Vault)
    (r : Vault × Option RotationResult) : Type 0 where
  pub read : (readable p dec v.wallets && readable p dec v.oidc_providers) ≡ true
  pub wallets_kept : readings p enc r.0.wallets ≡ readings p dec v.wallets
  pub providers_kept : readings p enc r.0.oidc_providers ≡ readings p dec v.oidc_providers
  pub result : RotationResult
  pub reported : r.1 ≡ some result
  pub counted_wallets : result.wallets ≡ length v.wallets
  pub counted_providers : result.oidc_providers ≡ length v.oidc_providers

-- The rotation was refused: some secret is not read by the ring of both keys, and nothing changed.
pub record Refused (p : Primitives) (dec : Keyring) (v : Vault) (r : Vault × Option RotationResult)
    : Type 0 where
  pub unread : (readable p dec v.wallets && readable p dec v.oidc_providers) ≡ false
  pub unchanged : r ≡ (v, none)

-- The rotation from one key to another either went through or was refused, as above: provided the
-- cipher opens what it seals, the two keys make key rings, and no id stands twice in a table.
pub rotate_encryption_key-Rotated :
    (p : Primitives) (v : Vault) (old_key new_key : Bytes) (nonces : ℕ → Bytes) (dec enc : Keyring)
    → Lawful p
    → ((i : ℕ) → Nonce (nonces i))
    → new_keyring p old_key (new_key ∷ []) ≡ some dec
    → new_keyring p new_key [] ≡ some enc
    → Distinct (map (λ r. r.id) v.wallets)
    → Distinct (map (λ r. r.id) v.oidc_providers)
    → Rotated p dec enc v (rotate_encryption_key p v old_key new_key nonces)
      ⊎ Refused p dec v (rotate_encryption_key p v old_key new_key nonces)
unfolding rotate_encryption_key rotate_tables
rotate_encryption_key-Rotated p v old_key new_key nonces dec enc l n d e uw up =
    elim (Option-cases (key_id p new_key)) [
      | inl x ↦ let y : none ≡ some enc = sym (new_keyring-none p new_key [] x) ∙ e in absurd (cc)
      | inr (id, x) ↦
          let (i, h) = keyring-primary p new_key [] enc id x e in
          elim (reencrypt_lem p l dec enc new_key id x i h nonces n 0 v.wallets) [
            | inr (u, a) ↦ inr (record {
              unread = rw u refl;
              unchanged = rw (d, e, a, rotate_encryption_key) refl;
            })
            | inl (u, a) ↦
                elim (reencrypt_lem p l dec enc new_key id x i h nonces n (length v.wallets)
                  v.oidc_providers) [
                    | inr (u', b) ↦ inr (record {
                      unread = rw (u, u') refl;
                      unchanged = rw (d, e, a.given, b, rotate_encryption_key) refl;
                    })
                    | inl (u', b) ↦
                        let ws = write_all_lem v.wallets a.rows uw a.same_ids in
                        let ps = write_all_lem v.oidc_providers b.rows up b.same_ids in
                        let res : RotationResult = record {
                          wallets = length v.wallets;
                          oidc_providers = length v.oidc_providers;
                          old_key_id = or_empty (key_id p old_key);
                          new_key_id = enc.primary;
                        } in
                        let y : rotate_encryption_key p v old_key new_key nonces
                            ≡ (record { wallets = a.rows; oidc_providers = b.rows }, some res) =
                          rw (d, e, a.given, b.given, ws, ps, rotate_encryption_key) refl in
                        inl (
                          subst (Rotated p dec enc v) (sym y) (record {
                            read = rw (u, u') refl;
                            wallets_kept = a.same;
                            providers_kept = b.same;
                            result = res;
                            reported = refl;
                            counted_wallets = refl;
                            counted_providers = refl;
                          }))
                  ]
          ]
    ]
