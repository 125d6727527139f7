-- ===== src/Quota/Check/Tiers.antt =====
-- What the four tiers decide together: whether every enabled quota that applies leaves room.
use indelible.Common.{
  ℕ, ◌+◌, ◌%◌, ◌<◌, ◌≡◌, refl, sym, ap, subst, ◌∙◌, inl, inr, Bool, true, false, ◌&&◌, ◌||◌, not,
  List, [], ◌∷◌, ◌++◌, Option, none, some, map, ◌==◌, arith, find, any, all, keep, All, sum, Bytes,
  bytes_eq_iff, ltb, Bool-cases,
}
use indelible.Common.Int.{ℤ, pos, ltb_ℤ}
use indelible.Common.Joins.{is_empty}
use indelible.Token.{is_null}
use indelible.Upload.Row.{Status}
use indelible.Quota.Decimal.{int64_to_string, parse_int}
use indelible.Quota.{
  EntityType, user, group, department, system, Quota, QuotaDb, QuotaError, type_eq, entity_is,
  equals, same_entity, group_sizes, entity_sizes, scan_sum, group_rows,
}
use indelible.Quota.Check.{
  matches_entity, exceeds, check_sum, check_limit, department_of, or_else, check_groups,
}

-- Two enabled quotas of one type and entity; all system quotas are of one entity.
unfoldable pub twins : Quota → Quota → Bool
unfolding same_entity
twins q r =
    q.is_enabled
    && r.is_enabled
    && type_eq r.entity_type q.entity_type
    && (type_eq q.entity_type system || same_entity q.entity_id r.entity_id)

-- No quota has a twin.
abbrev pub Unambiguous : List Quota → Type 0
Unambiguous [] = Unit {0}
Unambiguous (q ∷ qs) = (any (twins q) qs ≡ false) × Unambiguous qs

-- What documents the CAST: a text that ParseInt reads as an integer is cast to it.
abbrev pub CastsIntegers : (Bytes → ℤ) → Type 0
CastsIntegers cast_int = (s : Bytes) (z : ℤ) → parse_int s ≡ some z → cast_int s ≡ z

-- Whether an entity is a user by its printed id.
abbrev pub is_user : Option Bytes → Option Bytes → Bool
is_user entity none = false
is_user entity (some e) = entity_is e entity

-- Whether an entity is a department that has a name.
abbrev pub is_department : Option Bytes → Option Bytes → Bool
is_department entity none = false
is_department entity (some d) = not (is_empty d) && entity_is d entity

module _ (cast_int : Bytes → ℤ) where
  -- The quotas that apply to an upload of a user with a token: the user's own, those of the user's
  -- groups, that of the token's department, and the system's.
  unfoldable pub applies : QuotaDb → ℕ → Option ℕ → EntityType → Option Bytes → Bool
  applies db user_id token_id user entity = is_user entity (int64_to_string (pos user_id))
  applies db user_id token_id group entity = elim entity [
    | none ↦ false
    | some e ↦ any (λ gm. equals (cast_int e) gm.group_id && gm.user_id == user_id) (group_rows db)
  ]
  applies db user_id token_id department entity =
      is_department entity (department_of db.tokens.rows token_id)
  applies db user_id token_id system entity = true

  -- The bytes stored under a quota, those of the uploads with some statuses.
  abbrev pub usage : QuotaDb → List Status → Quota → ℕ
  usage db statuses q = sum (entity_sizes cast_int db statuses q.entity_type q.entity_id)

  -- The bytes stored and the file do not pass the limit.
  abbrev pub within : QuotaDb → List Status → ℕ → Quota → Bool
  within db statuses file_size q = not (ltb_ℤ q.max_bytes (pos (usage db statuses q + file_size)))

  -- No sum reaches the int64 bound.
  abbrev pub InBounds : QuotaDb → List Status → ℕ → Type 0
  InBounds db statuses file_size =
      All (λ q. usage db statuses q + file_size < 9223372036854775808) db.quotas

exceeds-ltb_ℤ :
    (used file_size : ℕ) (m : ℤ)
    → used + file_size < 9223372036854775808
    → exceeds used file_size m ≡ ltb_ℤ m (pos (used + file_size))
unfolding exceeds
exceeds-ltb_ℤ used file_size m h =
    let e : (used + file_size) % 18446744073709551616 ≡ used + file_size = omega arith in
    let f : ltb (used + file_size) 9223372036854775808 ≡ true = ground arith in rw (e, f) refl

pub is_null-check_sum :
    (sizes : List ℕ) (file_size : ℕ) (m : ℤ)
    → sum sizes + file_size < 9223372036854775808
    → is_null (check_sum sizes file_size m) ≡ not (ltb_ℤ m (pos (sum sizes + file_size)))
unfolding check_sum scan_sum
is_null-check_sum sizes file_size m h =
    let x = exceeds-ltb_ℤ (sum sizes) file_size m h in
    elim (Bool-cases (ltb_ℤ m (pos (sum sizes + file_size)))) [
      | inl e ↦ let y = x ∙ e in rw e (ground arith)
      | inr e ↦ let y = x ∙ e in rw e (ground arith)
    ]

pub is_null-or_else : (a b : Option QuotaError) → is_null (or_else a b) ≡ (is_null a && is_null b)
unfolding or_else
is_null-or_else none b = refl
is_null-or_else (some x) b = refl

-- No two rows of some test.
pub AtMostOne : (Quota → Bool) → List Quota → Type 0
AtMostOne m [] = Unit {0}
AtMostOne m (q ∷ qs) = (m q ≡ true → any m qs ≡ false) × AtMostOne m qs

all-none :
    (m w : Quota → Bool) (qs : List Quota)
    → any m qs ≡ false
    → all (λ q. not (m q) || w q) qs ≡ true
all-none m w [] h = refl
all-none m w (q ∷ qs) h = ground (arith, all-none m w qs)

-- A test of every row of a kind is one of the first such row where there is no second.
all-find :
    (m w : Quota → Bool) (F : Quota → Type 0) (limit : Option ℤ → Bool) (qs : List Quota)
    → limit none ≡ true
    → ((q : Quota) → m q ≡ true → F q → w q ≡ limit (some q.max_bytes))
    → All F qs
    → AtMostOne m qs
    → all (λ q. not (m q) || w q) qs
      ≡ limit (elim (find m qs) [ none ↦ none | some q ↦ some q.max_bytes ])
unfolding AtMostOne
all-find m w F limit [] l h f one = sym l
all-find m w F limit (q ∷ qs) l h f one = elim (Bool-cases (m q)) [
  | inl e ↦ rw (e, all-none m w qs (one.0 e), h q e f.0) (ground arith)
  | inr e ↦ rw e (all-find m w F limit qs l h f.1 one.1)
]

module _ (cast_int : Bytes → ℤ) (db : QuotaDb) (file_size : ℕ) (statuses : List Status) where
  -- A tier with a limit found by `find`, against the test of all the rows of its kind.
  pub is_null-check_limit :
      (m : Quota → Bool) (sizes : List ℕ)
      → ((q : Quota)
          → m q ≡ true
          → entity_sizes cast_int db statuses q.entity_type q.entity_id ≡ sizes)
      → InBounds cast_int db statuses file_size
      → AtMostOne m db.quotas
      → is_null (
          check_limit
            (elim (find m db.quotas) [ none ↦ none | some q ↦ some q.max_bytes ])
            sizes
            file_size)
        ≡ all (λ q. not (m q) || within cast_int db statuses file_size q) db.quotas
  unfolding check_limit
  is_null-check_limit m sizes same bounds one = sym (
      all-find m (within cast_int db statuses file_size)
        (λ q. usage cast_int db statuses q + file_size < 9223372036854775808)
        (λ limit. is_null (check_limit limit sizes file_size)) db.quotas refl
        (λ q e f.
          let b = subst (λ l. sum l + file_size < 9223372036854775808) (same q e) f in
          rw (same q e) (sym (is_null-check_sum sizes file_size q.max_bytes b)))
        bounds one)

pub eq_of_type_eq : (a b : EntityType) → type_eq a b ≡ true → a ≡ b
unfolding type_eq
eq_of_type_eq user b h = ground arith
eq_of_type_eq group b h = ground arith
eq_of_type_eq department b h = ground arith
eq_of_type_eq system b h = ground arith

pub type_eq_refl : (a : EntityType) → type_eq a a ≡ true
unfolding type_eq
type_eq_refl user = refl
type_eq_refl group = refl
type_eq_refl department = refl
type_eq_refl system = refl

pub eq_of_entity_is : (e : Bytes) (o : Option Bytes) → entity_is e o ≡ true → o ≡ some e
unfolding entity_is
eq_of_entity_is e none h = cc
eq_of_entity_is e (some x) h = ap some ((bytes_eq_iff x e).0 h)

pub twins-matches_entity :
    (type : EntityType) (e : Bytes) (q r : Quota)
    → matches_entity type (some e) q ≡ true
    → matches_entity type (some e) r ≡ true
    → twins q r ≡ true
unfolding twins same_entity matches_entity entity_is
twins-matches_entity type e q r hq hr =
    let a = eq_of_type_eq q.entity_type type (ground arith) in
    let b = eq_of_entity_is e q.entity_id (ground arith) in
    let c = type_eq_refl type in rw (a, b) (ground arith)

pub twins-system :
    (q r : Quota)
    → matches_entity system none q ≡ true
    → matches_entity system none r ≡ true
    → twins q r ≡ true
unfolding twins matches_entity
twins-system q r hq hr =
    let a = eq_of_type_eq q.entity_type system (ground arith) in
    rw a (ground (arith, type_eq_refl system))

any-twins :
    (m : Quota → Bool) (q : Quota) (qs : List Quota)
    → ((r : Quota) → m r ≡ true → twins q r ≡ true)
    → any (twins q) qs ≡ false
    → any m qs ≡ false
any-twins m q [] h n = refl
any-twins m q (r ∷ qs) h n = elim (Bool-cases (m r)) [
  | inl e ↦ let t = h r e in absurd (ground arith)
  | inr e ↦ rw e (any-twins m q qs h (ground arith))
]

pub Unambiguous-AtMostOne :
    (m : Quota → Bool) (qs : List Quota)
    → ((q r : Quota) → m q ≡ true → m r ≡ true → twins q r ≡ true)
    → Unambiguous qs
    → AtMostOne m qs
unfolding AtMostOne
Unambiguous-AtMostOne m [] h u = tt
Unambiguous-AtMostOne m (q ∷ qs) h u =
    (λ e. any-twins m q qs (λ r x. h q r e x) u.0, Unambiguous-AtMostOne m qs h u.1)

pub check_groups-append :
    (cast_int : Bytes → ℤ) (db : QuotaDb) (file_size : ℕ) (statuses : List Status)
    (xs ys : List (Bytes × ℤ))
    → is_null (check_groups cast_int db file_size statuses (xs ++ ys)) ≡ (
        is_null (check_groups cast_int db file_size statuses xs)
        && is_null (check_groups cast_int db file_size statuses ys))
unfolding check_groups
check_groups-append cast_int db file_size statuses [] ys = refl
check_groups-append cast_int db file_size statuses ((e, m) ∷ xs) ys =
    let ih = check_groups-append cast_int db file_size statuses xs ys in
    let s = check_sum (group_sizes statuses (cast_int e) (group_rows db) db.uploads) file_size m in
    rw
      (
        is_null-or_else s (check_groups cast_int db file_size statuses (xs ++ ys)),
        is_null-or_else s (check_groups cast_int db file_size statuses xs),
        ih,
      )
      (ground arith)

-- One limit, checked once for each row that joins.
pub check_groups-map :
    {A : Type 0} (cast_int : Bytes → ℤ) (db : QuotaDb) (file_size : ℕ) (statuses : List Status)
    (e : Bytes) (m : ℤ) (p : A → Bool) (xs : List A)
    → is_null (check_groups cast_int db file_size statuses (map (λ _. (e, m)) (keep p xs))) ≡ (
        not (any p xs)
        || is_null
            (check_sum (group_sizes statuses (cast_int e) (group_rows db) db.uploads) file_size m))
unfolding check_groups
check_groups-map cast_int db file_size statuses e m p [] = refl
check_groups-map cast_int db file_size statuses e m p (x ∷ xs) =
    let ih = check_groups-map cast_int db file_size statuses e m p xs in
    let s = check_sum (group_sizes statuses (cast_int e) (group_rows db) db.uploads) file_size m in
    elim (Bool-cases (p x)) [
      | inl h ↦
          rw
            (
              h,
              is_null-or_else s
                  (check_groups cast_int db file_size statuses (map (λ _. (e, m)) (keep p xs))),
              ih,
            )
            (ground arith)
      | inr h ↦ rw h ih
    ]
