-- ===== src/Audit/Verified.antt =====
-- VerifyAuditChain, internal/services/log.go, on a log that the program wrote.
use indelible.Common.{
  ℕ, zero, suc, ◌+◌, ◌≤◌, ◌≡◌, ◌⊎◌, refl, sym, subst, ◌∙◌, Bool, true, false, not, ◌&&◌, List, [],
  ◌∷◌, Option, none, some, some-injective, arith, length, take, All, Bytes, bytes_eq, bytes_eq_refl,
  Bool-cases, inl, inr,
}
use indelible.Common.Joins.{is_empty}
use indelible.Token.{is_null}
use indelible.Audit.{
  AuditRow, AuditAnchor, Logs, AuditChainResult, chained, last, last_hash, latest_audit_anchor,
  audit_chain_head, verify_audit_chain, conclude,
}
use indelible.Audit.Chain.{linked, verify_rows-linked, head_from, head_from-take}
use indelible.Audit.Worker.{HexDigest, World, Step, calm, run}
use indelible.Audit.Anchors.{Commits, Sound, run-IsIntact, run-Sound}

-- What verification reports: the log is intact over all its rows, and the latest anchor, if there is
-- one, was looked up, and matches where the reading of the heads was undisturbed.
pub record Verified (l : Logs) (undisturbed : Bool) (r : AuditChainResult) : Type 0 where
  pub is_intact : r.intact ≡ true
  pub counted : r.count ≡ (audit_chain_head l).1
  pub checked : r.anchor_checked ≡ not (is_null (latest_audit_anchor l))
  pub matched : (undisturbed ≡ false) ⊎ (r.anchor_matches ≡ r.anchor_checked)

abbrev Committed : Logs → Type 0
Committed l = All (λ a. Commits (chained l.audit_log) a.head_hash a.row_count) l.audit_anchors

latest-Commits :
    (rows : List AuditRow) (o : Option AuditAnchor) (as_ : List AuditAnchor) (a : AuditAnchor)
    → (o ≡ some a → Commits rows a.head_hash a.row_count)
    → All (λ x. Commits rows x.head_hash x.row_count) as_
    → last o as_ ≡ some a
    → Commits rows a.head_hash a.row_count
latest-Commits rows o [] a h c e = h e
latest-Commits rows o (x ∷ xs) a h c e =
    latest-Commits rows (some x) xs a
      (λ y. subst (λ v. Commits rows v.head_hash v.row_count) (some-injective _ _ y) c.0) c.1 e

conclude-Commits :
    (rows : List AuditRow) (a : AuditAnchor)
    → Commits rows a.head_hash a.row_count
    → (conclude (some a) (length rows) (head_from (some a) 0 [] rows)).anchor_matches ≡ true
unfolding conclude
conclude-Commits rows a c = at_count a.row_count refl c.positive c.reached c.same
  where
    at_count :
        (n : ℕ)
        → a.row_count ≡ n
        → 1 ≤ n
        → n ≤ length rows
        → last_hash [] (take n rows) ≡ a.head_hash
        → (not (is_empty (head_from (some a) 0 [] rows))
            && bytes_eq (head_from (some a) 0 [] rows) a.head_hash)
          ≡ true
    at_count zero e p l s = absurd (omega arith)
    at_count (suc n) e p l s =
        rw
          (head_from-take a n 0 [] [] rows (omega arith) l ∙ s, c.filled, bytes_eq_refl a.head_hash)
          refl

conclude-matched :
    (l : Logs) (o : Option AuditAnchor)
    → latest_audit_anchor l ≡ o
    → Committed l
    → (conclude o
        (length (chained l.audit_log))
        (head_from o 0 [] (chained l.audit_log))).anchor_matches
      ≡ not (is_null o)
unfolding conclude
conclude-matched l none e c = refl
conclude-matched l (some a) e c = conclude-Commits (chained l.audit_log) a (
    latest-Commits (chained l.audit_log) none l.audit_anchors a (λ x. absurd (cc)) c
      (unfold latest_audit_anchor in e))

conclude-Verified :
    (l : Logs) (undisturbed : Bool) (o : Option AuditAnchor)
    → latest_audit_anchor l ≡ o
    → ((undisturbed ≡ false) ⊎ Committed l)
    → Verified l undisturbed
        (conclude o (0 + length (chained l.audit_log)) (head_from o 0 [] (chained l.audit_log)))
unfolding conclude audit_chain_head
conclude-Verified l u none e c = record {
  is_intact = refl;
  counted = omega arith;
  checked = rw e refl;
  matched = inr refl;
}
conclude-Verified l u (some a) e c = record {
  is_intact = refl;
  counted = omega arith;
  checked = rw e refl;
  matched = elim c [ inl d ↦ inl d | inr k ↦ inr (conclude-matched l (some a) e k) ];
}

verify-Verified :
    (sha256_hex : Bytes → Bytes) (l : Logs) (undisturbed : Bool)
    → linked sha256_hex [] (chained l.audit_log) ≡ true
    → ((undisturbed ≡ false) ⊎ Committed l)
    → Verified l undisturbed (verify_audit_chain sha256_hex l)
unfolding verify_audit_chain audit_chain_head
verify-Verified sha256_hex l u h c =
    let v = verify_rows-linked sha256_hex (latest_audit_anchor l) [] 0 [] (chained l.audit_log) h in
    subst (Verified l u) (sym v) (conclude-Verified l u (latest_audit_anchor l) refl c)

-- Any interleaving of audit writes, system log writes and clean-ups, and steps of the anchoring worker,
-- from sound logs on where the worker is not between the two statements of AuditChainHead, leaves logs
-- of which verification reports that they are intact, that all chained rows were checked, and that the
-- latest anchor, if there is one, was looked up; and the anchor matches, unless an audit write came
-- between those two statements: provided the digest is one.
pub run-Verified :
    (sha256_hex : Bytes → Bytes) (w : World) (xs : List Step)
    → HexDigest sha256_hex
    → w.counted ≡ none
    → Sound sha256_hex w
    → Verified
        (run sha256_hex w xs).logs
        (calm false xs)
        (verify_audit_chain sha256_hex (run sha256_hex w xs).logs)
run-Verified sha256_hex w xs hex n s =
    verify-Verified sha256_hex (run sha256_hex w xs).logs (calm false xs)
      (run-IsIntact sha256_hex hex w xs s.intact)
      (elim (Bool-cases (calm false xs)) [
        | inl c ↦ inr (run-Sound sha256_hex hex false w xs n c s).anchored
        | inr c ↦ inl c
      ])
