-- ===== src/Audit/Worker.antt =====
-- The logs with the anchoring worker: other writes come between its reading of the count, its reading
-- of the head, and the record of the anchor after its publication.
use indelible.Common.{
  ℕ, ◌≡◌, Bool, true, false, not, ◌&&◌, List, [], ◌∷◌, Option, none, some, all, Bytes,
}
use indelible.Common.Joins.{is_empty}
use indelible.DownloadCache.{is_hex}
use indelible.Audit.{
  Logs, Event, write_audit, write_system, cleanup_old_logs, record_audit_anchor, begin_anchor,
  read_head,
}

-- What a digest in hexadecimal is.
abbrev pub HexDigest : (Bytes → Bytes) → Type 0
HexDigest sha256_hex =
    (x : Bytes) → (is_empty (sha256_hex x) ≡ false) × (all is_hex (sha256_hex x) ≡ true)

-- The logs, with the count that the worker has read where it has not yet read the head, and the head
-- and the count that it has published and not yet recorded.
pub record World : Type 0 where
  pub logs : Logs
  pub counted : Option ℕ
  pub pending : Option (Bytes × ℕ)

pub data Step : Type 0 where
  audits : Event → Step
  logs_system : Bytes → Bytes → Bytes → Bytes → Bytes → ℕ → Step
  cleans : ℕ → Step
  -- The first statement of AuditChainHead, and the second with what follows it.
  begins : Bool → Bool → Step
  reads : Bool → Step
  -- The end of a publication, with the address of the chunk where it succeeds.
  publishes : Option Bytes → ℕ → Step

unfoldable pub publish : World → Option (Bytes × ℕ) → Option Bytes → ℕ → World
publish w (some (head, count)) (some address) now = record w {
  logs = record_audit_anchor w.logs head count address [] now;
  pending = none;
}
publish w p a now = record w { pending = none }

unfoldable pub step : (Bytes → Bytes) → World → Step → World
step sha256_hex w (audits e) = record w { logs = write_audit sha256_hex w.logs e }
step sha256_hex w (logs_system level component message detail request_id now) = record w {
  logs = write_system w.logs level component message detail request_id now;
}
step sha256_hex w (cleans cutoff) = record w { logs = (cleanup_old_logs w.logs cutoff).0 }
step sha256_hex w (begins enabled has_wallet) = record w {
  counted = begin_anchor w.logs enabled has_wallet;
}
step sha256_hex w (reads has_rpc) = record w {
  counted = none;
  pending = elim w.counted [ none ↦ none | some count ↦ read_head w.logs count has_rpc ];
}
step sha256_hex w (publishes address now) = publish w w.pending address now

unfoldable pub run : (Bytes → Bytes) → World → List Step → World
run sha256_hex w [] = w
run sha256_hex w (x ∷ xs) = run sha256_hex (step sha256_hex w x) xs

-- Whether no audit write comes between the two statements of AuditChainHead; the flag says that the
-- first has run and the second has not.
abbrev pub calm : Bool → List Step → Bool
calm b [] = true
calm b (audits e ∷ xs) = not b && calm b xs
calm b (begins enabled has_wallet ∷ xs) = calm true xs
calm b (reads has_rpc ∷ xs) = calm false xs
calm b (x ∷ xs) = calm b xs
