-- ===== src/Audit/Anchors.antt =====
-- The anchors that anchorOnce of internal/worker/audit_anchor.go records, through any interleaving.
use indelible.Common.{
  ℕ, zero, suc, ◌≤◌, ◌≡◌, refl, sym, ap, subst, ◌∙◌, Bool, true, false, not, ◌||◌, List, [], ◌∷◌,
  ◌++◌, Option, none, some, arith, ◌==◌, length, length-append, take, keep-append, All, All-mono,
  All-append, Bytes, bytes_eq_refl, Bool-cases, inl, inr,
}
use indelible.Common.Joins.{is_empty}
use indelible.Audit.{
  AuditRow, Logs, Event, chained, last, last_hash, links, audited, audit_row_hash, content,
  write_audit, write_system, cleanup_old_logs, record_audit_anchor, begin_anchor, read_head,
  is_anchored,
}
use indelible.Audit.Chain.{linked, linked-append}
use indelible.Audit.Worker.{
  HexDigest, World, Step, audits, logs_system, cleans, begins, reads, publishes, calm, publish,
  step, run,
}

-- A head that was that of the rows when they were so many.
pub record Commits (rows : List AuditRow) (head : Bytes) (count : ℕ) : Type 0 where
  pub positive : 1 ≤ count
  pub reached : count ≤ length rows
  pub same : last_hash [] (take count rows) ≡ head
  pub filled : is_empty head ≡ false

abbrev pub Pending : List AuditRow → Option (Bytes × ℕ) → Type 0
Pending rows none = Unit {0}
Pending rows (some (head, count)) = Commits rows head count

abbrev pub Current : List AuditRow → Option ℕ → Type 0
Current rows none = Unit {0}
Current rows (some count) = count ≡ length rows

pub record Sound (sha256_hex : Bytes → Bytes) (w : World) : Type 0 where
  pub intact : linked sha256_hex [] (chained w.logs.audit_log) ≡ true
  pub anchored :
      All (λ a. Commits (chained w.logs.audit_log) a.head_hash a.row_count) w.logs.audit_anchors
  pub awaited : Pending (chained w.logs.audit_log) w.pending
  pub current : Current (chained w.logs.audit_log) w.counted

take-append :
    (n : ℕ) (rs : List AuditRow) (r : AuditRow) → n ≤ length rs → take n (rs ++ r ∷ []) ≡ take n rs
take-append zero rs r h = refl
take-append (suc n) [] r h = absurd (omega arith)
take-append (suc n) (q ∷ rs) r h = ap (λ l. q ∷ l) (take-append n rs r (omega arith))

take-length : (rs : List AuditRow) → take (length rs) rs ≡ rs
take-length [] = refl
take-length (r ∷ rs) = ap (λ l. r ∷ l) (take-length rs)

Commits-append :
    (rows : List AuditRow) (r : AuditRow) (head : Bytes) (count : ℕ)
    → Commits rows head count
    → Commits (rows ++ r ∷ []) head count
Commits-append rows r head count c = record {
  positive = c.positive;
  reached = let l = length-append rows (r ∷ []) in omega (arith, l, c.reached);
  same = ap (last_hash []) (take-append count rows r c.reached) ∙ c.same;
  filled = c.filled;
}

Pending-append :
    (rows : List AuditRow) (r : AuditRow) (p : Option (Bytes × ℕ))
    → Pending rows p
    → Pending (rows ++ r ∷ []) p
Pending-append rows r none c = tt
Pending-append rows r (some (head, count)) c = Commits-append rows r head count c

Commits-head :
    (rows : List AuditRow)
    → is_empty (last_hash [] rows) ≡ false
    → Commits rows (last_hash [] rows) (length rows)
Commits-head [] h = absurd (ground arith)
Commits-head (r ∷ rows) h = record {
  positive = omega arith;
  reached = omega arith;
  same = ap (last_hash []) (take-length (r ∷ rows));
  filled = h;
}

begin_anchor-Current :
    (l : Logs) (enabled has_wallet : Bool)
    → Current (chained l.audit_log) (begin_anchor l enabled has_wallet)
unfolding begin_anchor
begin_anchor-Current l enabled has_wallet = elim (Bool-cases (not enabled || not has_wallet)) [
  | inl x ↦ rw x tt
  | inr x ↦ elim (Bool-cases (length (chained l.audit_log) == 0)) [
    | inl y ↦ rw (x, y) tt
    | inr y ↦ rw (x, y) refl
  ]
]

read_head-Pending :
    (l : Logs) (count : ℕ) (has_rpc : Bool)
    → count ≡ length (chained l.audit_log)
    → Pending (chained l.audit_log) (read_head l count has_rpc)
unfolding read_head
read_head-Pending l count has_rpc e =
    let rows = chained l.audit_log in
    elim (Bool-cases (is_empty (last_hash [] rows))) [
      | inl y ↦ rw y tt
      | inr y ↦
          elim (Bool-cases (is_anchored (last none l.audit_anchors) (last_hash [] rows) count)) [
            | inl z ↦ rw (y, z) tt
            | inr z ↦ elim (Bool-cases has_rpc) [
              | inl v ↦
                  rw (y, z, v)
                    (subst (Commits rows (last_hash [] rows)) (sym e) (Commits-head rows y))
              | inr v ↦ rw (y, z, v) tt
            ]
          ]
    ]

Pending-read :
    (l : Logs) (counted : Option ℕ) (has_rpc : Bool)
    → Current (chained l.audit_log) counted
    → Pending
        (chained l.audit_log)
        (elim counted [ none ↦ none | some count ↦ read_head l count has_rpc ])
Pending-read l none has_rpc c = tt
Pending-read l (some count) has_rpc c = read_head-Pending l count has_rpc c

module _ (sha256_hex : Bytes → Bytes) (hex : HexDigest sha256_hex) where
  hashed : (l : Logs) (e : Event) → is_empty (audited sha256_hex l e).row_hash ≡ false
  unfolding audited audit_row_hash
  hashed l e = (hex _).0

  chained-audited :
      (l : Logs) (e : Event)
      → chained (l.audit_log ++ audited sha256_hex l e ∷ [])
        ≡ chained l.audit_log ++ audited sha256_hex l e ∷ []
  chained-audited l e =
      let n : is_empty (audited sha256_hex l e).row_hash ≡ false = hashed l e in
      keep-append (λ r. not (is_empty r.row_hash)) l.audit_log (audited sha256_hex l e ∷ [])
      ∙ rw n refl

  links-audited :
      (l : Logs) (e : Event)
      → links sha256_hex (last_hash [] (chained l.audit_log)) (audited sha256_hex l e) ≡ true
  unfolding links audited content
  links-audited l e = simp bytes_eq_refl

  publish-Sound :
      (w : World) (p : Option (Bytes × ℕ)) (a : Option Bytes) (now : ℕ)
      → Sound sha256_hex w
      → Pending (chained w.logs.audit_log) p
      → Sound sha256_hex (publish w p a now)
  unfolding publish record_audit_anchor
  publish-Sound w none none now s c = record {
    intact = s.intact;
    anchored = s.anchored;
    awaited = tt;
    current = s.current;
  }
  publish-Sound w none (some x) now s c = record {
    intact = s.intact;
    anchored = s.anchored;
    awaited = tt;
    current = s.current;
  }
  publish-Sound w (some (head, count)) none now s c = record {
    intact = s.intact;
    anchored = s.anchored;
    awaited = tt;
    current = s.current;
  }
  publish-Sound w (some (head, count)) (some x) now s c = record {
    intact = s.intact;
    anchored =
        All-append (λ a. Commits (chained w.logs.audit_log) a.head_hash a.row_count)
          w.logs.audit_anchors _ s.anchored (c, tt);
    awaited = tt;
    current = s.current;
  }

  write-intact :
      (l : Logs) (e : Event)
      → linked sha256_hex [] (chained l.audit_log) ≡ true
      → linked sha256_hex [] (chained (write_audit sha256_hex l e).audit_log) ≡ true
  unfolding write_audit
  write-intact l e h =
      subst (λ v. linked sha256_hex [] v ≡ true) (sym (chained-audited l e))
        (linked-append sha256_hex [] (chained l.audit_log) (audited sha256_hex l e) h
          (links-audited l e))

  abbrev pub IsIntact : World → Type 0
  IsIntact w = linked sha256_hex [] (chained w.logs.audit_log) ≡ true

  publish-IsIntact :
      (w : World) (p : Option (Bytes × ℕ)) (a : Option Bytes) (now : ℕ)
      → IsIntact w
      → IsIntact (publish w p a now)
  unfolding publish record_audit_anchor
  publish-IsIntact w none none now h = h
  publish-IsIntact w none (some x) now h = h
  publish-IsIntact w (some (head, count)) none now h = h
  publish-IsIntact w (some (head, count)) (some x) now h = h

  step-IsIntact : (w : World) (x : Step) → IsIntact w → IsIntact (step sha256_hex w x)
  unfolding step write_system cleanup_old_logs
  step-IsIntact w (audits e) h = write-intact w.logs e h
  step-IsIntact w (logs_system level component message detail request_id now) h = h
  step-IsIntact w (cleans cutoff) h = h
  step-IsIntact w (begins enabled has_wallet) h = h
  step-IsIntact w (reads has_rpc) h = h
  step-IsIntact w (publishes address now) h = publish-IsIntact w w.pending address now h

  pub run-IsIntact : (w : World) (xs : List Step) → IsIntact w → IsIntact (run sha256_hex w xs)
  unfolding run
  run-IsIntact w [] h = h
  run-IsIntact w (x ∷ xs) h = run-IsIntact (step sha256_hex w x) xs (step-IsIntact w x h)

  audits-Sound :
      (w : World) (e : Event)
      → w.counted ≡ none
      → Sound sha256_hex w
      → Sound sha256_hex (step sha256_hex w (audits e))
  unfolding step write_audit
  audits-Sound w e n s =
      let rows = chained w.logs.audit_log in
      let r = audited sha256_hex w.logs e in
      let grown = sym (chained-audited w.logs e) in
      record {
        intact = write-intact w.logs e s.intact;
        anchored =
            All-mono w.logs.audit_anchors
              (λ a c.
                subst (λ v. Commits v a.head_hash a.row_count) grown
                  (Commits-append rows r a.head_hash a.row_count c))
              s.anchored;
        awaited =
            subst (λ v. Pending v w.pending) grown (Pending-append rows r w.pending s.awaited);
        current = subst (Current (chained (w.logs.audit_log ++ r ∷ []))) (sym n) tt;
      }

  publish-counted :
      (w : World) (p : Option (Bytes × ℕ)) (a : Option Bytes) (now : ℕ)
      → (publish w p a now).counted ≡ w.counted
  unfolding publish
  publish-counted w none none now = refl
  publish-counted w none (some x) now = refl
  publish-counted w (some (head, count)) none now = refl
  publish-counted w (some (head, count)) (some x) now = refl

  begins-Sound :
      (w : World) (enabled has_wallet : Bool)
      → Sound sha256_hex w
      → Sound sha256_hex (step sha256_hex w (begins enabled has_wallet))
  unfolding step
  begins-Sound w enabled has_wallet s = record {
    intact = s.intact;
    anchored = s.anchored;
    awaited = s.awaited;
    current = begin_anchor-Current w.logs enabled has_wallet;
  }

  reads-Sound :
      (w : World) (has_rpc : Bool)
      → Sound sha256_hex w
      → Sound sha256_hex (step sha256_hex w (reads has_rpc))
  unfolding step
  reads-Sound w has_rpc s = record {
    intact = s.intact;
    anchored = s.anchored;
    awaited = Pending-read w.logs w.counted has_rpc s.current;
    current = tt;
  }

  same-Sound :
      (w : World) (l : Logs)
      → l.audit_log ≡ w.logs.audit_log
      → l.audit_anchors ≡ w.logs.audit_anchors
      → Sound sha256_hex w
      → Sound sha256_hex (record w { logs = l })
  same-Sound w l r a s =
      rw (r, a)
        (record {
          intact = s.intact;
          anchored = s.anchored;
          awaited = s.awaited;
          current = s.current;
        })

  -- The flag of `calm` stands where a count has been read and the head has not.
  abbrev pub Flagged : Bool → World → Type 0
  Flagged true w = Unit {0}
  Flagged false w = w.counted ≡ none

  flag : (b : Bool) (w w' : World) → w'.counted ≡ w.counted → Flagged b w → Flagged b w'
  flag true w w' e f = tt
  flag false w w' e f = e ∙ f

  pub run-Sound :
      (b : Bool) (w : World) (xs : List Step)
      → Flagged b w
      → calm b xs ≡ true
      → Sound sha256_hex w
      → Sound sha256_hex (run sha256_hex w xs)
  unfolding run step write_audit write_system cleanup_old_logs
  run-Sound b w [] f c s = s
  run-Sound true w (audits e ∷ xs) f c s = absurd (cc)
  run-Sound false w (audits e ∷ xs) f c s =
      run-Sound false (step sha256_hex w (audits e)) xs f c (audits-Sound w e f s)
  run-Sound b w (logs_system level component message detail request_id now ∷ xs) f c s =
      let w' = step sha256_hex w (logs_system level component message detail request_id now) in
      run-Sound b w' xs (flag b w w' refl f) c (same-Sound w w'.logs refl refl s)
  run-Sound b w (cleans cutoff ∷ xs) f c s =
      let w' = step sha256_hex w (cleans cutoff) in
      run-Sound b w' xs (flag b w w' refl f) c (same-Sound w w'.logs refl refl s)
  run-Sound b w (begins enabled has_wallet ∷ xs) f c s =
      run-Sound true (step sha256_hex w (begins enabled has_wallet)) xs tt c
        (begins-Sound w enabled has_wallet s)
  run-Sound b w (reads has_rpc ∷ xs) f c s =
      run-Sound false (step sha256_hex w (reads has_rpc)) xs refl c (reads-Sound w has_rpc s)
  run-Sound b w (publishes address now ∷ xs) f c s =
      let w' = publish w w.pending address now in
      run-Sound b w' xs (flag b w w' (publish-counted w w.pending address now) f) c
        (publish-Sound w w.pending address now s s.awaited)
