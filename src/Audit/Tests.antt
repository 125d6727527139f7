-- ===== src/Audit/Tests.antt =====
-- An audit log of three rows with an anchor that is recorded after the second, for the first.
use indelible.Common.{
  ℕ, ◌≡◌, ◌⊎◌, refl, ap, ◌∙◌, true, false, not, List, [], ◌∷◌, map, none, some, arith,
  if◌then◌else◌, all, take, Bytes, bytes_eq, text, inl, inr,
}
use indelible.DownloadCache.{is_hex}
use indelible.Token.{is_null}
use indelible.Quota.Decimal.{int64_to_string, digits}
use indelible.Audit.{
  AuditAnchor, Event, chained, content, audit_chain_head, latest_audit_anchor, verify_audit_chain,
  write_audit, begin_anchor, read_head, verify_rows, links, conclude, note_head, is_anchored,
  audited, audit_row_hash, preimage, record_audit_anchor, user_id_string,
}
use indelible.Audit.Chain.{linked}
use indelible.Audit.Worker.{
  HexDigest, World, Step, audits, begins, reads, publishes, calm, publish, step, run,
}
use indelible.Audit.Anchors.{Sound}
use indelible.Audit.Verified.{Verified, run-Verified}
use indelible.Audit.Tamper.{Collision, clean, verify_audit_chain-anchored}

-- A digest for the tests: bytes that are no hexadecimal digit become 0.
abbrev fold : ℕ → ℕ
fold c = if is_hex c then c else 48

abbrev digest : Bytes → Bytes
digest x = 48 ∷ map fold x

fold-is_hex : (x : Bytes) → all is_hex (map fold x) ≡ true
fold-is_hex [] = refl
fold-is_hex (c ∷ x) = let i = fold-is_hex x in ground arith

digest-HexDigest : HexDigest digest
digest-HexDigest x = (refl, fold-is_hex x)

abbrev login : Event
login = record {
  event_type = text "login";
  severity = text "info";
  user_id = some 7;
  detail = text "d";
  ip_address = text "::1";
  user_agent = [];
  request_id = [];
}

abbrev start : World
start = record {
  logs = record {
    audit_log = [];
    audit_seq = 0;
    audit_anchors = [];
    anchor_seq = 0;
    system_log = [];
    system_seq = 0;
  };
  counted = none;
  pending = none;
}

start-Sound : Sound digest start
unfolding linked
start-Sound = record { intact = refl; anchored = tt; awaited = tt; current = tt }

abbrev day : List Step
day =
    audits login
    ∷ begins true true
    ∷ reads true
    ∷ audits login
    ∷ publishes (some (text "a")) 5
    ∷ audits login
    ∷ []

run-Verified_example :
    Verified
      (run digest start day).logs
      (calm false day)
      (verify_audit_chain digest (run digest start day).logs)
run-Verified_example = run-Verified digest start day digest-HexDigest refl start-Sound

-- The log when it was anchored, and the log at the end of the day.
abbrev morning : World
morning = run digest start (audits login ∷ [])

abbrev evening : World
evening = run digest start day

abbrev anchor : AuditAnchor
anchor = record {
  id = 1;
  head_hash = (audit_chain_head morning.logs).0;
  row_count = 1;
  network_address = text "a";
  tx_hash = [];
  anchored_at = 5;
}

morning-intact : (verify_audit_chain digest morning.logs).intact ≡ true
morning-intact =
    (run-Verified digest start (audits login ∷ []) digest-HexDigest refl start-Sound).is_intact

evening-latest : latest_audit_anchor evening.logs ≡ some anchor
unfolding run step publish begin_anchor read_head audit_chain_head latest_audit_anchor write_audit
    record_audit_anchor is_anchored audited audit_row_hash preimage user_id_string
evening-latest = refl

morning-clean : clean (chained morning.logs.audit_log) ≡ true
unfolding run step write_audit audited audit_row_hash content preimage user_id_string
    int64_to_string digits
morning-clean = refl

evening-clean : clean (chained evening.logs.audit_log) ≡ true
unfolding run step publish begin_anchor read_head latest_audit_anchor write_audit
    record_audit_anchor is_anchored audited audit_row_hash preimage user_id_string content
    int64_to_string digits
evening-clean = refl

morning-head : audit_chain_head morning.logs ≡ (anchor.head_hash, anchor.row_count)
unfolding run step write_audit audited audit_chain_head audit_row_hash
morning-head = refl

evening-matches : (verify_audit_chain digest evening.logs).anchor_matches ≡ true
evening-matches =
    let v = run-Verified digest start day digest-HexDigest refl start-Sound in
    elim v.matched [
      | inl d ↦ absurd (cc)
      | inr m ↦ m ∙ v.checked ∙ ap (λ o. not (is_null o)) evening-latest
    ]

-- An audit write between the reading of the count and that of the head: the anchor that is recorded
-- is not one of the log's, and verification reports it.
abbrev race : List Step
race =
    audits login ∷ begins true true ∷ audits login ∷ reads true ∷ publishes (some (text "a")) 5 ∷ []

race-mismatch : (verify_audit_chain digest (run digest start race).logs).anchor_matches ≡ false
unfolding run step publish begin_anchor read_head latest_audit_anchor write_audit
    record_audit_anchor is_anchored audited audit_row_hash preimage user_id_string content
    int64_to_string digits verify_audit_chain verify_rows links conclude note_head bytes_eq
race-mismatch = refl

verify_audit_chain-anchored_example :
    (map content (take 1 (chained evening.logs.audit_log))
      ≡ map content (chained morning.logs.audit_log))
    ⊎ Collision digest
verify_audit_chain-anchored_example =
    verify_audit_chain-anchored digest morning.logs evening.logs anchor digest-HexDigest
      morning-clean evening-clean morning-intact morning-head evening-latest evening-matches
