-- ===== src/Quota/Systems.antt =====
-- System quotas have no entity, so the table's UNIQUE does not keep them apart.
use indelible.Common.{
  ℕ, suc, ◌≤◌, ◌≡◌, refl, Bool, false, ◌&&◌, List, [], ◌∷◌, ◌++◌, none, some, arith, ◌==◌, any,
  find, All, Bytes, bytes_eq, text, ok,
}
use indelible.Common.Int.{ℤ}
use indelible.Quota.{
  system, Quota, QuotaDb, type_eq, conflicts, same_entity, new_quota, validate_entity,
  validate_type, entity_type_of, insert_quota, create_quota, get_by_id, calc_usage,
}
use indelible.Quota.Entities.{WellFormed}

-- The enabled system quotas.
abbrev pub is_system : Quota → Bool
is_system q = type_eq q.entity_type system && q.is_enabled

no-conflict :
    (id : ℕ) (m : ℤ) (qs : List Quota) → any (conflicts (new_quota id system [] m)) qs ≡ false
unfolding conflicts same_entity
no-conflict id m [] = refl
no-conflict id m (q ∷ qs) = ground (arith, no-conflict id m qs)

find-last :
    (q : Quota) (qs : List Quota) (n : ℕ)
    → All (λ r. r.id ≤ n) qs
    → q.id ≡ suc n
    → find (λ r. r.id == q.id) (qs ++ q ∷ []) ≡ some q
find-last q [] n b e = ground arith
find-last q (r ∷ qs) n b e = ground (arith, find-last q qs n)

-- The tables with one more system quota.
abbrev pub with_system : QuotaDb → ℤ → QuotaDb
with_system db m = record db {
  quotas = db.quotas ++ new_quota (suc db.quota_seq) system [] m ∷ [];
  quota_seq = suc db.quota_seq;
}

get-last :
    (cast_int : Bytes → ℤ) (db : QuotaDb) (m : ℤ)
    → All (λ r. r.id ≤ db.quota_seq) db.quotas
    → get_by_id cast_int (with_system db m) (suc db.quota_seq)
      ≡ ok (
        new_quota (suc db.quota_seq) system [] m,
        calc_usage cast_int (with_system db m) system none,
      )
unfolding get_by_id
get-last cast_int db m b =
    let f = find-last (new_quota (suc db.quota_seq) system [] m) db.quotas db.quota_seq b refl in
    rw (f, get_by_id) refl

-- Where the quotas are well formed, Create of a system quota succeeds and adds a row, whatever system
-- quotas there are.
pub create_quota-system :
    (cast_int : Bytes → ℤ) (db : QuotaDb) (e : Bytes) (m : ℤ)
    → WellFormed db
    → create_quota cast_int db (text "system") e m ≡ (
      with_system db m,
      ok (
        new_quota (suc db.quota_seq) system [] m,
        calc_usage cast_int (with_system db m) system none,
      ),
    )
unfolding create_quota insert_quota validate_entity validate_type entity_type_of bytes_eq
create_quota-system cast_int db e m w =
    rw (no-conflict (suc db.quota_seq) m db.quotas, get-last cast_int db m w.bounded) refl
