-- ===== src/Quota/Check/InFlight.antt =====
-- The check with queued and processing uploads counted is the stricter one.
use indelible.Common.{
  ℕ, ◌+◌, ◌<◌, ◌≤◌, ◌≡◌, ◌↔◌, Bool, true, List, [], ◌∷◌, ◌++◌, Option, none, some, map, arith, keep,
  All-mono, sum, Bytes, Bool-cases, inl, inr,
}
use indelible.Common.Int.{ℤ}
use indelible.Common.Joins.{flat_map}
use indelible.Upload.Row.{Upload, completed, already_stored, processing, queued}
use indelible.Quota.{
  EntityType, user, group, department, system, Quota, QuotaDb, entity_sizes, system_sizes,
  group_sizes, department_sizes, status_in, quota_completed_statuses, quota_in_flight_statuses,
}
use indelible.Quota.Check.{check_user_quota, check_user_quota_in_flight}
use indelible.Quota.Check.Tiers.{Unambiguous, CastsIntegers, within, InBounds}
use indelible.Quota.Check.Allowed.{Allowed, check_all_tiers-Allowed}

status_in-completed :
    (u : Upload)
    → status_in quota_completed_statuses u ≡ true
    → status_in quota_in_flight_statuses u ≡ true
unfolding status_in
status_in-completed u h = ground arith

sum-append : (xs ys : List ℕ) → sum (xs ++ ys) ≡ sum xs + sum ys
sum-append [] ys = omega arith
sum-append (x ∷ xs) ys = omega (arith, sum-append xs ys)

sum-map-keep-le :
    (p q : Upload → Bool) (us : List Upload)
    → ((u : Upload) → p u ≡ true → q u ≡ true)
    → sum (map (λ u. u.file_size) (keep p us)) ≤ sum (map (λ u. u.file_size) (keep q us))
sum-map-keep-le p q [] h = omega arith
sum-map-keep-le p q (u ∷ us) h =
    let ih = sum-map-keep-le p q us h in
    elim (Bool-cases (p u)) [
      | inl e ↦ rw (e, h u e) (omega arith)
      | inr e ↦ elim (Bool-cases (q u)) [ inl f ↦ rw (e, f) (omega arith) | inr f ↦ rw (e, f) ih ]
    ]

sum-flat_map-keep-le :
    (f : Upload → List ℕ) (p q : Upload → Bool) (us : List Upload)
    → ((u : Upload) → p u ≡ true → q u ≡ true)
    → sum (flat_map f (keep p us)) ≤ sum (flat_map f (keep q us))
sum-flat_map-keep-le f p q [] h = omega arith
sum-flat_map-keep-le f p q (u ∷ us) h =
    let ih = sum-flat_map-keep-le f p q us h in
    elim (Bool-cases (p u)) [
      | inl e ↦
          rw
            (
              e,
              h u e,
              sum-append (f u) (flat_map f (keep p us)),
              sum-append (f u) (flat_map f (keep q us)),
            )
            (omega arith)
      | inr e ↦ elim (Bool-cases (q u)) [
        | inl g ↦ rw (e, g, sum-append (f u) (flat_map f (keep q us))) (omega arith)
        | inr g ↦ rw (e, g) ih
      ]
    ]

-- What is stored under an entity is at most that with what is under way.
sum-entity_sizes-le :
    (cast_int : Bytes → ℤ) (db : QuotaDb) (t : EntityType) (e : Option Bytes)
    → sum (entity_sizes cast_int db quota_completed_statuses t e)
      ≤ sum (entity_sizes cast_int db quota_in_flight_statuses t e)
unfolding entity_sizes group_sizes department_sizes system_sizes
sum-entity_sizes-le cast_int db user none = omega arith
sum-entity_sizes-le cast_int db user (some e) =
    sum-map-keep-le _ _ db.uploads
      (λ u h. let y = status_in-completed u (ground arith) in ground arith)
sum-entity_sizes-le cast_int db group none = omega arith
sum-entity_sizes-le cast_int db group (some e) =
    sum-flat_map-keep-le _ _ _ db.uploads status_in-completed
sum-entity_sizes-le cast_int db department none = omega arith
sum-entity_sizes-le cast_int db department (some e) =
    sum-flat_map-keep-le _ _ _ db.uploads status_in-completed
sum-entity_sizes-le cast_int db system e = sum-map-keep-le _ _ db.uploads status_in-completed

within_mono :
    (cast_int : Bytes → ℤ) (db : QuotaDb) (file_size : ℕ) (q : Quota)
    → within cast_int db quota_in_flight_statuses file_size q ≡ true
    → within cast_int db quota_completed_statuses file_size q ≡ true
within_mono cast_int db file_size q h =
    let l = sum-entity_sizes-le cast_int db q.entity_type q.entity_id in ground arith

-- The worker's check passes exactly where every enabled quota that applies leaves room for the file over
-- the completed, already stored, processing and queued uploads, the check of the request exactly where it
-- does over the completed and already stored ones, and where the first passes so does the second:
-- provided the user id is an int64, no sum reaches the int64 bound, no two enabled quotas are of one
-- entity, and CAST agrees with ParseInt.
pub check_user_quota-in_flight :
    (cast_int : Bytes → ℤ) (db : QuotaDb) (user_id : ℕ) (token_id : Option ℕ) (file_size : ℕ)
    → CastsIntegers cast_int
    → user_id < 9223372036854775808
    → InBounds cast_int db (completed ∷ already_stored ∷ processing ∷ queued ∷ []) file_size
    → Unambiguous db.quotas
    → ((check_user_quota_in_flight cast_int db user_id token_id file_size ≡ none)
        ↔ Allowed cast_int db user_id token_id file_size
            (completed ∷ already_stored ∷ processing ∷ queued ∷ []))
      × ((check_user_quota cast_int db user_id token_id file_size ≡ none)
          ↔ Allowed cast_int db user_id token_id file_size (completed ∷ already_stored ∷ []))
      × (check_user_quota_in_flight cast_int db user_id token_id file_size ≡ none
          → check_user_quota cast_int db user_id token_id file_size ≡ none)
unfolding check_user_quota check_user_quota_in_flight
check_user_quota-in_flight cast_int db user_id token_id file_size casts h b u =
    let b' : InBounds cast_int db quota_completed_statuses file_size =
      All-mono db.quotas
        (λ q k. let l = sum-entity_sizes-le cast_int db q.entity_type q.entity_id in omega arith)
        b in
    let wide =
      check_all_tiers-Allowed cast_int db user_id token_id file_size quota_in_flight_statuses casts
        h b u in
    let narrow =
      check_all_tiers-Allowed cast_int db user_id token_id file_size quota_completed_statuses casts
        h b' u in
    (
      wide,
      narrow,
      λ c.
          narrow.1 (
            All-mono db.quotas (λ q k x y. within_mono cast_int db file_size q (k x y)) (wide.0 c)),
    )
