-- ===== src/Quota/Entities.antt =====
-- The rows of the quotas table through any calls: what a quota is of, and that no entity has two.
use indelible.Common.{
  ℕ, suc, ◌≤◌, ◌≡◌, refl, sym, Bool, true, false, not, List, [], ◌∷◌, ◌++◌, Option, none, some,
  arith, if◌then◌else◌, any, keep, All, All-mono, All-append, Bytes, bytes_eq_iff, Result, ok, err,
  Bool-cases, inl, inr,
}
use indelible.Common.Int.{ℤ}
use indelible.Common.Sql.{update, All-update}
use indelible.Common.Joins.{is_empty}
use indelible.Quota.{
  EntityType, user, group, department, system, Quota, QuotaDb, QuotaError, type_eq, entity_is,
  conflicts, same_entity, new_quota, validate_entity, validate_type, insert_quota, create_quota,
  update_quota, delete_quota, entity_type_of,
}

-- A system quota is of no entity, every other of one that is not the empty string.
abbrev pub proper : EntityType → Option Bytes → Bool
proper system none = true
proper system (some e) = false
proper t none = false
proper t (some e) = not (is_empty e)

-- Pairs of rows that UNIQUE(entity_type, entity_id) keeps apart.
unfoldable pub NoConflict : List Quota → Type 0
NoConflict [] = Unit {0}
NoConflict (q ∷ qs) = All (λ r. conflicts q r ≡ false) qs × NoConflict qs

pub record WellFormed (db : QuotaDb) : Type 0 where
  pub proper_rows : All (λ q. proper q.entity_type q.entity_id ≡ true) db.quotas
  pub bounded : All (λ q. q.id ≤ db.quota_seq) db.quotas
  pub unique : NoConflict db.quotas

-- The calls that change quotas.
pub data Call : Type 0 where
  create_call : Bytes → Bytes → ℤ → Call
  update_call : ℕ → ℤ → Bool → Call
  delete_call : ℕ → Call

type_eq_swap : (a b : EntityType) → type_eq a b ≡ type_eq b a
unfolding type_eq
type_eq_swap user b = ground arith
type_eq_swap group b = ground arith
type_eq_swap department b = ground arith
type_eq_swap system b = ground arith

same_entity_swap : (a b : Option Bytes) → same_entity a b ≡ true → same_entity b a ≡ true
unfolding same_entity entity_is
same_entity_swap none b h = cc
same_entity_swap (some x) none h = cc
same_entity_swap (some x) (some y) h =
    let e = (bytes_eq_iff y x).0 h in (bytes_eq_iff x y).1 (sym e)

conflicts_swap : (q r : Quota) → conflicts q r ≡ true → conflicts r q ≡ true
unfolding conflicts
conflicts_swap q r h =
    let a = type_eq_swap q.entity_type r.entity_type in
    let b = same_entity_swap q.entity_id r.entity_id (ground arith) in ground arith

NoConflict-append :
    (q : Quota) (qs : List Quota)
    → any (conflicts q) qs ≡ false
    → NoConflict qs
    → NoConflict (qs ++ q ∷ [])
unfolding NoConflict
NoConflict-append q [] n u = (tt, tt)
NoConflict-append q (r ∷ qs) n u = (
  All-append (λ x. conflicts r x ≡ false) qs (q ∷ []) u.0 (not_conflicting, tt),
  NoConflict-append q qs (ground arith) u.1,
)
  where
    not_conflicting : conflicts r q ≡ false
    not_conflicting = elim (Bool-cases (conflicts r q)) [
      | inl e ↦ let y = conflicts_swap r q e in absurd (ground arith)
      | inr e ↦ e
    ]

All-keep : {A : Type 0} (P : A → Type 0) (p : A → Bool) (xs : List A) → All P xs → All P (keep p xs)
All-keep P p [] a = tt
All-keep P p (x ∷ xs) a = elim (Bool-cases (p x)) [
  | inl e ↦ rw e (a.0, All-keep P p xs a.1)
  | inr e ↦ rw e (All-keep P p xs a.1)
]

NoConflict-keep : (p : Quota → Bool) (qs : List Quota) → NoConflict qs → NoConflict (keep p qs)
unfolding NoConflict
NoConflict-keep p [] u = tt
NoConflict-keep p (q ∷ qs) u = elim (Bool-cases (p q)) [
  | inl e ↦ rw e (All-keep _ p qs u.0, NoConflict-keep p qs u.1)
  | inr e ↦ rw e (NoConflict-keep p qs u.1)
]

-- What UPDATE sets, neither type nor entity.
abbrev changed : ℤ → Bool → Quota → Quota
changed max_bytes is_enabled q = record q { max_bytes = max_bytes; is_enabled = is_enabled }

NoConflict-update :
    (p : Quota → Bool) (m : ℤ) (b : Bool) (qs : List Quota)
    → NoConflict qs
    → NoConflict (update p (changed m b) qs)
unfolding NoConflict update
NoConflict-update p m b [] u = tt
NoConflict-update p m b (q ∷ qs) u =
    let ih = NoConflict-update p m b qs u.1 in
    let rest =
      All-update (λ r. conflicts q r ≡ false) p (changed m b) qs u.0
        (λ r e c. unfold conflicts in c) in
    elim (Bool-cases (p q)) [
      | inl e ↦ rw e (unfold conflicts in rest, ih)
      | inr e ↦ rw e (rest, ih)
    ]

validated-proper :
    (cast_int : Bytes → ℤ) (db : QuotaDb) (o : Option EntityType) (e : Bytes) (t : EntityType)
    (e' : Bytes)
    → validate_type cast_int db o e ≡ ok (t, e')
    → proper t (if is_empty e' then none else some e') ≡ true
unfolding validate_type
validated-proper cast_int db none e t e' h = ground arith
validated-proper cast_int db (some system) e t e' h = ground arith
validated-proper cast_int db (some user) e t e' h = ground arith
validated-proper cast_int db (some group) e t e' h = ground arith
validated-proper cast_int db (some department) e t e' h = ground arith

insert_quota-WellFormed :
    (cast_int : Bytes → ℤ) (db : QuotaDb) (t : EntityType) (e : Bytes) (m : ℤ)
    → proper t (if is_empty e then none else some e) ≡ true
    → WellFormed db
    → WellFormed (insert_quota cast_int db (new_quota (suc db.quota_seq) t e m)).0
unfolding insert_quota
insert_quota-WellFormed cast_int db t e m p w =
    let q = new_quota (suc db.quota_seq) t e m in
    elim (Bool-cases (any (conflicts q) db.quotas)) [
      | inl c ↦ rw c w
      | inr c ↦ rw c (record {
        proper_rows =
            All-append (λ r. proper r.entity_type r.entity_id ≡ true) db.quotas (q ∷ [])
              w.proper_rows (p, tt);
        bounded =
            All-append (λ r. r.id ≤ suc db.quota_seq) db.quotas (q ∷ [])
              (All-mono db.quotas (λ r b. omega arith) w.bounded) (omega arith, tt);
        unique = NoConflict-append q db.quotas c w.unique;
      })
    ]

unfoldable pub step : (Bytes → ℤ) → QuotaDb → Call → QuotaDb
step cast_int db (create_call type e m) = (create_quota cast_int db type e m).0
step cast_int db (update_call id m b) = (update_quota cast_int db id m b).0
step cast_int db (delete_call id) = (delete_quota db id).0

step-WellFormed :
    (cast_int : Bytes → ℤ) (db : QuotaDb) (c : Call)
    → WellFormed db
    → WellFormed (step cast_int db c)
unfolding step create_quota update_quota delete_quota validate_entity
step-WellFormed cast_int db (create_call type e m) w =
    created (validate_type cast_int db (entity_type_of type) e) refl
  where
    created :
        (v : Result QuotaError (EntityType × Bytes))
        → validate_type cast_int db (entity_type_of type) e ≡ v
        → WellFormed
            (elim v as (λ _. QuotaDb × Result QuotaError (Quota × ℕ)) [
              | err x ↦ (db, err x)
              | ok (t, e') ↦ insert_quota cast_int db (new_quota (suc db.quota_seq) t e' m)
            ]).0
    created (err x) h = w
    created (ok (t, e')) h =
        insert_quota-WellFormed cast_int db t e' m
          (validated-proper cast_int db (entity_type_of type) e t e' h) w
step-WellFormed cast_int db (update_call id m b) w = record {
  proper_rows = All-update _ _ _ db.quotas w.proper_rows (λ r e p. p);
  bounded = All-update _ _ _ db.quotas w.bounded (λ r e p. p);
  unique = NoConflict-update _ m b db.quotas w.unique;
}
step-WellFormed cast_int db (delete_call id) w = record {
  proper_rows = All-keep _ _ db.quotas w.proper_rows;
  bounded = All-keep _ _ db.quotas w.bounded;
  unique = NoConflict-keep _ db.quotas w.unique;
}

unfoldable pub run : (Bytes → ℤ) → QuotaDb → List Call → QuotaDb
run cast_int db [] = db
run cast_int db (c ∷ cs) = run cast_int (step cast_int db c) cs

-- Any sequence of creations, updates and deletions keeps the quotas well formed: a system quota is of
-- no entity and every other quota of one, ids are at most the last one given out, and no two rows are
-- of one type and entity, as far as the entity is not NULL.
pub run-WellFormed :
    (cast_int : Bytes → ℤ) (db : QuotaDb) (cs : List Call)
    → WellFormed db
    → WellFormed (run cast_int db cs)
unfolding run
run-WellFormed cast_int db [] w = w
run-WellFormed cast_int db (c ∷ cs) w =
    run-WellFormed cast_int (step cast_int db c) cs (step-WellFormed cast_int db c w)
