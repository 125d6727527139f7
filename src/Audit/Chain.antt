-- ===== src/Audit/Chain.antt =====
-- The loop of VerifyAuditChain, internal/services/log.go, against the rows as a whole.
use indelible.Common.{
  ℕ, zero, suc, ◌+◌, ◌≤◌, ◌≡◌, refl, ap, ◌∙◌, Bool, true, false, ◌&&◌, List, [], ◌∷◌, ◌++◌, Option,
  some, arith, ◌==◌, length, take, Bytes, Bool-cases, inl, inr,
}
use indelible.Audit.{AuditRow, AuditAnchor, last_hash, links, conclude, note_head, verify_rows}

-- The running head at an anchored count, which is where `count` is that of the rows before.
unfoldable pub head_from : Option AuditAnchor → ℕ → Bytes → List AuditRow → Bytes
head_from anchor count head_at [] = head_at
head_from anchor count head_at (r ∷ rs) =
    head_from anchor (count + 1) (note_head anchor (count + 1) r.row_hash head_at) rs

pub head_from-past :
    (a : AuditAnchor) (count : ℕ) (head_at : Bytes) (rs : List AuditRow)
    → a.row_count ≤ count
    → head_from (some a) count head_at rs ≡ head_at
unfolding head_from note_head
head_from-past a count head_at [] h = refl
head_from-past a count head_at (r ∷ rs) h =
    let n : (count + 1 == a.row_count) ≡ false = ground arith in
    rw n (head_from-past a (count + 1) head_at rs (omega arith))

-- At a count that the rows reach, the head is the last hash of the rows up to it.
pub head_from-take :
    (a : AuditAnchor) (n count : ℕ) (prev head_at : Bytes) (rs : List AuditRow)
    → a.row_count ≡ count + suc n
    → suc n ≤ length rs
    → head_from (some a) count head_at rs ≡ last_hash prev (take (suc n) rs)
unfolding head_from note_head
head_from-take a n count prev head_at [] e l = absurd (omega arith)
head_from-take a zero count prev head_at (r ∷ rs) e l =
    let n : (count + 1 == a.row_count) ≡ true = ground arith in
    rw n (head_from-past a (count + 1) r.row_hash rs (omega arith))
head_from-take a (suc n) count prev head_at (r ∷ rs) e l =
    head_from-take a n (count + 1) r.row_hash _ rs (omega arith) (omega arith)

module _ (sha256_hex : Bytes → Bytes) where
  -- Every row points at the one before and hashes to its stored hash.
  unfoldable pub linked : Bytes → List AuditRow → Bool
  linked prev [] = true
  linked prev (r ∷ rs) = links sha256_hex prev r && linked r.row_hash rs

  pub verify_rows-linked :
      (anchor : Option AuditAnchor) (prev : Bytes) (count : ℕ) (head_at : Bytes)
      (rs : List AuditRow)
      → linked prev rs ≡ true
      → verify_rows sha256_hex anchor prev count head_at rs
        ≡ conclude anchor (count + length rs) (head_from anchor count head_at rs)
  unfolding linked verify_rows head_from
  verify_rows-linked anchor prev count head_at [] h =
      ap (λ c. conclude anchor c head_at) (omega arith)
  verify_rows-linked anchor prev count head_at (r ∷ rs) h =
      let t : links sha256_hex prev r ≡ true = ground arith in
      rw t (
        verify_rows-linked anchor r.row_hash (count + 1)
          (note_head anchor (count + 1) r.row_hash head_at) rs (ground arith)
        ∙ ap
            (λ c.
              conclude anchor c
                (head_from anchor (count + 1) (note_head anchor (count + 1) r.row_hash head_at) rs))
            (omega arith))

  pub linked-verify_rows :
      (anchor : Option AuditAnchor) (prev : Bytes) (count : ℕ) (head_at : Bytes)
      (rs : List AuditRow)
      → (verify_rows sha256_hex anchor prev count head_at rs).intact ≡ true
      → linked prev rs ≡ true
  unfolding linked verify_rows
  linked-verify_rows anchor prev count head_at [] h = refl
  linked-verify_rows anchor prev count head_at (r ∷ rs) h =
      elim (Bool-cases (links sha256_hex prev r)) [
        | inl e ↦ rw e (
            linked-verify_rows anchor r.row_hash (count + 1)
              (note_head anchor (count + 1) r.row_hash head_at) rs (rw (← h) (rw e refl)))
        | inr e ↦ let y : false ≡ true = rw (← h) (rw e refl) in absurd (ground arith)
      ]

  pub linked-append :
      (prev : Bytes) (rs : List AuditRow) (r : AuditRow)
      → linked prev rs ≡ true
      → links sha256_hex (last_hash prev rs) r ≡ true
      → linked prev (rs ++ r ∷ []) ≡ true
  unfolding linked
  linked-append prev [] r h l = rw l refl
  linked-append prev (q ∷ rs) r h l =
      let i = linked-append q.row_hash rs r (ground arith) l in ground arith

pub last_hash-append :
    (prev : Bytes) (rs : List AuditRow) (r : AuditRow) → last_hash prev (rs ++ r ∷ []) ≡ r.row_hash
last_hash-append prev [] r = refl
last_hash-append prev (q ∷ rs) r = last_hash-append q.row_hash rs r
