-- ===== src/Quota/Check/Allowed.antt =====
-- The check allows an upload exactly where every enabled quota that applies leaves room for it.
use indelible.Common.{
  ℕ, ◌<◌, ◌≡◌, refl, sym, ◌∙◌, ◌↔◌, inl, inr, Bool, true, ◌&&◌, ◌||◌, not, List, [], ◌∷◌, Option,
  none, some, arith, all, All, Bytes, Bool-cases,
}
use indelible.Common.Int.{ℤ}
use indelible.Token.{is_null}
use indelible.Upload.Row.{Status}
use indelible.Quota.{
  EntityType, user, group, department, system, Quota, QuotaDb, QuotaError, type_eq,
}
use indelible.Quota.Check.{
  check_user_tier, check_system_tier, check_department_tier, or_else, check_group_tier,
  check_all_tiers,
}
use indelible.Quota.Check.Tiers.{
  Unambiguous, CastsIntegers, applies, within, InBounds, is_null-or_else,
}
use indelible.Quota.Check.Each.{
  all-and, all-same, respects, applying, tier-system, tier-department, tier-user, tier-group-rows,
}

module _ (cast_int : Bytes → ℤ) (db : QuotaDb) (user_id : ℕ) (token_id : Option ℕ) (file_size : ℕ)
    (statuses : List Status) where
  -- Every enabled quota that applies leaves room.
  abbrev pub Allowed : Type 0
  Allowed =
      All
        (λ q.
          q.is_enabled ≡ true
          → applies cast_int db user_id token_id q.entity_type q.entity_id ≡ true
          → within cast_int db statuses file_size q ≡ true)
        db.quotas

  every : Quota → Bool
  every q =
      respects cast_int db user_id token_id file_size statuses
        (applying cast_int db user_id token_id file_size statuses user) q
      && (respects cast_int db user_id token_id file_size statuses
            (applying cast_int db user_id token_id file_size statuses group) q
          && (respects cast_int db user_id token_id file_size statuses
                (applying cast_int db user_id token_id file_size statuses department) q
              && respects cast_int db user_id token_id file_size statuses
                  (applying cast_int db user_id token_id file_size statuses system) q))

  every-type :
      (t : EntityType) (q : Quota)
      → q.entity_type ≡ t
      → every q ≡ (
          not (q.is_enabled && applies cast_int db user_id token_id t q.entity_id)
          || within cast_int db statuses file_size q)
  unfolding every type_eq
  every-type user q e = rw e (ground arith)
  every-type group q e = rw e (ground arith)
  every-type department q e = rw e (ground arith)
  every-type system q e = rw e (ground arith)

  check-every :
      CastsIntegers cast_int
      → user_id < 9223372036854775808
      → InBounds cast_int db statuses file_size
      → Unambiguous db.quotas
      → is_null (check_all_tiers cast_int db user_id token_id file_size statuses)
        ≡ all every db.quotas
  unfolding check_all_tiers check_group_tier every
  check-every casts h b u =
      let qs = db.quotas in
      let us =
        respects cast_int db user_id token_id file_size statuses
          (applying cast_int db user_id token_id file_size statuses user) in
      let gs =
        respects cast_int db user_id token_id file_size statuses
          (applying cast_int db user_id token_id file_size statuses group) in
      let ds =
        respects cast_int db user_id token_id file_size statuses
          (applying cast_int db user_id token_id file_size statuses department) in
      let ss =
        respects cast_int db user_id token_id file_size statuses
          (applying cast_int db user_id token_id file_size statuses system) in
      rw
        (
          is_null-or_else (check_user_tier db user_id file_size statuses) (
              or_else (check_group_tier cast_int db user_id file_size statuses) (
                or_else (check_department_tier db token_id file_size statuses)
                  (check_system_tier db file_size statuses))),
          is_null-or_else (check_group_tier cast_int db user_id file_size statuses) (
              or_else (check_department_tier db token_id file_size statuses)
                (check_system_tier db file_size statuses)),
          is_null-or_else (check_department_tier db token_id file_size statuses)
              (check_system_tier db file_size statuses),
          tier-user cast_int db user_id token_id file_size statuses casts h b u,
          tier-group-rows cast_int db user_id token_id file_size statuses qs b,
          tier-department cast_int db user_id token_id file_size statuses b u,
          tier-system cast_int db user_id token_id file_size statuses b u,
          all-and us (λ q. gs q && (ds q && ss q)) qs,
          all-and gs (λ q. ds q && ss q) qs,
          all-and ds ss qs,
        )
        refl

all_iff :
    {A : Type 0} (a b c : A → Bool) (xs : List A)
    → (all (λ x. not (a x && b x) || c x) xs ≡ true)
      ↔ All (λ x. a x ≡ true → b x ≡ true → c x ≡ true) xs
all_iff a b c [] = (λ _. tt, λ _. refl)
all_iff a b c (x ∷ xs) =
    let ih = all_iff a b c xs in
    (
      λ h. (λ p q. ground arith, ih.0 (ground arith)),
      λ h.
          let t = ih.1 h.1 in
          elim (Bool-cases (a x && b x)) [
            | inl e ↦ let y = h.0 (ground arith) (ground arith) in ground arith
            | inr e ↦ ground arith
          ],
    )

null_iff : (o : Option QuotaError) → (o ≡ none) ↔ (is_null o ≡ true)
null_iff none = (λ _. refl, λ _. refl)
null_iff (some x) = (λ h. cc, λ h. cc)

-- The check of all tiers, over uploads of any statuses, returns no error exactly where every enabled
-- quota that applies to the upload leaves room for the file: provided the user id is an int64, no sum
-- reaches the int64 bound, no two enabled quotas are of one entity, and CAST agrees with ParseInt.
pub check_all_tiers-Allowed :
    (cast_int : Bytes → ℤ) (db : QuotaDb) (user_id : ℕ) (token_id : Option ℕ) (file_size : ℕ)
    (statuses : List Status)
    → CastsIntegers cast_int
    → user_id < 9223372036854775808
    → InBounds cast_int db statuses file_size
    → Unambiguous db.quotas
    → (check_all_tiers cast_int db user_id token_id file_size statuses ≡ none)
      ↔ Allowed cast_int db user_id token_id file_size statuses
check_all_tiers-Allowed cast_int db user_id token_id file_size statuses casts h b u =
    let n = null_iff (check_all_tiers cast_int db user_id token_id file_size statuses) in
    let e =
      check-every cast_int db user_id token_id file_size statuses casts h b u
      ∙ all-same (every cast_int db user_id token_id file_size statuses) _ db.quotas
          (λ q. every-type cast_int db user_id token_id file_size statuses q.entity_type q refl) in
    let i =
      all_iff (λ q. q.is_enabled)
        (λ q. applies cast_int db user_id token_id q.entity_type q.entity_id)
        (within cast_int db statuses file_size) db.quotas in
    (λ c. i.0 (sym e ∙ n.0 c), λ a. n.1 (e ∙ i.1 a))
