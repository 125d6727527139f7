-- ===== src/Quota/Check/Each.antt =====
-- Each of the four tiers, as the test of the quotas of its type.
use indelible.Common.{
  ℕ, ◌+◌, ◌<◌, ◌≡◌, refl, sym, ap₂, subst, ◌∙◌, inl, inr, Bool, true, false, ◌&&◌, ◌||◌, not, List,
  [], ◌∷◌, Option, none, some, ◌==◌, arith, all, All, sum, Bytes, Bool-cases,
}
use indelible.Common.Int.{ℤ, pos}
use indelible.Common.Joins.{flat_map, is_empty}
use indelible.Token.{is_null}
use indelible.Upload.Row.{Status}
use indelible.Quota.Decimal.RoundTrip.{parse_int-int64_to_string}
use indelible.Quota.{
  EntityType, user, group, department, system, Quota, QuotaDb, type_eq, entity_is, equals,
  user_sizes, group_sizes, department_sizes, system_sizes, entity_sizes, group_rows,
}
use indelible.Quota.Check.{
  matches_entity, lookup_quota_limit, check_user_tier, check_user, check_system_tier, department_of,
  check_department, check_department_tier, joined_quotas, join_entity, check_groups,
}
use indelible.Quota.Check.Tiers.{
  Unambiguous, CastsIntegers, applies, is_department, is_user, usage, within, InBounds,
  is_null-check_limit, is_null-check_sum, Unambiguous-AtMostOne, twins-matches_entity, twins-system,
  check_groups-append, check_groups-map, eq_of_entity_is, eq_of_type_eq,
}

all-true : {A : Type 0} (p : A → Bool) (xs : List A) → ((x : A) → p x ≡ true) → all p xs ≡ true
all-true p [] h = refl
all-true p (x ∷ xs) h = rw (h x) (all-true p xs h)

pub all-and :
    {A : Type 0} (p q : A → Bool) (xs : List A) → all (λ x. p x && q x) xs ≡ (all p xs && all q xs)
all-and p q [] = refl
all-and p q (x ∷ xs) = ground (arith, all-and p q xs)

pub all-same :
    {A : Type 0} (p q : A → Bool) (xs : List A) → ((x : A) → p x ≡ q x) → all p xs ≡ all q xs
all-same p q [] h = refl
all-same p q (x ∷ xs) h = rw (h x, all-same p q xs h) refl

module _ (cast_int : Bytes → ℤ) (db : QuotaDb) (user_id : ℕ) (token_id : Option ℕ) (file_size : ℕ)
    (statuses : List Status) where
  -- A quota of some kind that is not passed.
  abbrev pub respects : (Quota → Bool) → Quota → Bool
  respects m q = not (m q) || within cast_int db statuses file_size q

  -- The enabled quotas of a type that apply.
  abbrev pub applying : EntityType → Quota → Bool
  applying t q =
      type_eq q.entity_type t && applies cast_int db user_id token_id t q.entity_id && q.is_enabled

  pub tier-system :
      InBounds cast_int db statuses file_size
      → Unambiguous db.quotas
      → is_null (check_system_tier db file_size statuses)
        ≡ all (respects (applying system)) db.quotas
  unfolding check_system_tier lookup_quota_limit applies
  tier-system b u =
      is_null-check_limit cast_int db file_size statuses (matches_entity system none)
        (system_sizes statuses db.uploads)
        (λ q e.
          unfold matches_entity in
          let t = eq_of_type_eq q.entity_type system (ground arith) in
          rw t (unfold entity_sizes in refl))
        b (Unambiguous-AtMostOne (matches_entity system none) db.quotas twins-system u)
      ∙ all-same (respects (matches_entity system none)) (respects (applying system)) db.quotas
          (λ q. unfold matches_entity in ground arith)

  department-case :
      (o : Option Bytes)
      → InBounds cast_int db statuses file_size
      → Unambiguous db.quotas
      → is_null (check_department db o file_size statuses)
        ≡ all
            (respects (λ q.
              type_eq q.entity_type department && is_department q.entity_id o && q.is_enabled))
            db.quotas
  unfolding check_department lookup_quota_limit
  department-case none b u = sym (all-true _ db.quotas (λ q. ground arith))
  department-case (some d) b u = elim (Bool-cases (is_empty d)) [
    | inl x ↦ rw x (sym (all-true _ db.quotas (λ q. ground arith)))
    | inr x ↦ rw x (
        is_null-check_limit cast_int db file_size statuses (matches_entity department (some d))
          (department_sizes statuses d db.tokens.rows db.uploads)
          (λ q e.
            unfold matches_entity in
            let t = eq_of_type_eq q.entity_type department (ground arith) in
            let i = eq_of_entity_is d q.entity_id (ground arith) in
            rw (t, i) (unfold entity_sizes in refl))
          b
          (Unambiguous-AtMostOne (matches_entity department (some d)) db.quotas
            (twins-matches_entity department d) u)
        ∙ all-same (respects (matches_entity department (some d)))
            (respects (λ q.
              type_eq q.entity_type department
              && (not false && entity_is d q.entity_id)
              && q.is_enabled))
            db.quotas (λ q. unfold matches_entity in refl))
  ]

  pub tier-department :
      InBounds cast_int db statuses file_size
      → Unambiguous db.quotas
      → is_null (check_department_tier db token_id file_size statuses)
        ≡ all (respects (applying department)) db.quotas
  unfolding check_department_tier applies
  tier-department = department-case (department_of db.tokens.rows token_id)

  user-case :
      (e : Bytes)
      → cast_int e ≡ pos user_id
      → InBounds cast_int db statuses file_size
      → Unambiguous db.quotas
      → is_null (check_user db user_id file_size statuses (some e))
        ≡ all
            (respects
              (λ q. type_eq q.entity_type user && is_user q.entity_id (some e) && q.is_enabled))
            db.quotas
  unfolding check_user lookup_quota_limit
  user-case e cast b u =
      is_null-check_limit cast_int db file_size statuses (matches_entity user (some e))
        (user_sizes statuses user_id db.uploads)
        (λ q x.
          unfold matches_entity in
          let t = eq_of_type_eq q.entity_type user (ground arith) in
          let i = eq_of_entity_is e q.entity_id (ground arith) in
          rw (t, i) (unfold entity_sizes user_sizes equals in rw cast refl))
        b
        (Unambiguous-AtMostOne (matches_entity user (some e)) db.quotas
          (twins-matches_entity user e) u)
      ∙ all-same (respects (matches_entity user (some e)))
          (respects
            (λ q. type_eq q.entity_type user && is_user q.entity_id (some e) && q.is_enabled))
          db.quotas (λ q. unfold matches_entity in refl)

  pub tier-user :
      CastsIntegers cast_int
      → user_id < 9223372036854775808
      → InBounds cast_int db statuses file_size
      → Unambiguous db.quotas
      → is_null (check_user_tier db user_id file_size statuses)
        ≡ all (respects (applying user)) db.quotas
  unfolding check_user_tier applies
  tier-user casts h b u =
      let (e, printed, read) = parse_int-int64_to_string (pos user_id) h (omega arith) in
      subst
        (λ o.
          is_null (check_user db user_id file_size statuses o)
          ≡ all
              (respects (λ q. type_eq q.entity_type user && is_user q.entity_id o && q.is_enabled))
              db.quotas)
        (sym printed) (user-case e (casts e (pos user_id) read) b u)

  join-case :
      (q : Quota) (o : Option Bytes)
      → q.entity_id ≡ o
      → usage cast_int db statuses q + file_size < 9223372036854775808
      → is_null (
          check_groups cast_int db file_size statuses
            (join_entity cast_int user_id (group_rows db) q o))
        ≡ (not (
              type_eq q.entity_type group
              && applies cast_int db user_id token_id group o
              && q.is_enabled)
            || within cast_int db statuses file_size q)
  unfolding join_entity applies check_groups
  join-case q none n b = ground arith
  join-case q (some e) n b = elim (Bool-cases (type_eq q.entity_type group && q.is_enabled)) [
    | inr x ↦ rw x (ground arith)
    | inl x ↦
        let t = eq_of_type_eq q.entity_type group (ground arith) in
        let sizes = group_sizes statuses (cast_int e) (group_rows db) db.uploads in
        let same : usage cast_int db statuses q ≡ sum sizes =
          rw (t, n) (unfold entity_sizes in refl) in
        let c =
          is_null-check_sum sizes file_size q.max_bytes
            (subst (λ v. v + file_size < 9223372036854775808) same b) in
        let m =
          check_groups-map cast_int db file_size statuses e q.max_bytes
            (λ gm. equals (cast_int e) gm.group_id && gm.user_id == user_id) (group_rows db) in
        rw (x, same) (m ∙ rw c (ground arith))
  ]

  pub join-respects :
      (q : Quota)
      → usage cast_int db statuses q + file_size < 9223372036854775808
      → is_null (
          check_groups cast_int db file_size statuses
            (joined_quotas cast_int user_id (group_rows db) q))
        ≡ respects (applying group) q
  unfolding joined_quotas
  join-respects q b = join-case q q.entity_id refl b

  pub tier-group-rows :
      (qs : List Quota)
      → All (λ q. usage cast_int db statuses q + file_size < 9223372036854775808) qs
      → is_null (
          check_groups cast_int db file_size statuses
            (flat_map (joined_quotas cast_int user_id (group_rows db)) qs))
        ≡ all (respects (applying group)) qs
  tier-group-rows [] b = unfold check_groups in refl
  tier-group-rows (q ∷ qs) b =
      check_groups-append cast_int db file_size statuses
        (joined_quotas cast_int user_id (group_rows db) q)
        (flat_map (joined_quotas cast_int user_id (group_rows db)) qs)
      ∙ ap₂ (λ x y. x && y) (join-respects q b.0) (tier-group-rows qs b.1)
