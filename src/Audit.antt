-- ===== src/Audit.antt =====
-- The hash chain of the audit log, internal/services/log.go, and the worker that anchors its head on
-- the network, internal/worker/audit_anchor.go. SHA-256 with its hexadecimal form is `sha256_hex`.
pub mod Chain
pub mod Worker
pub mod Anchors
pub mod Verified
pub mod Tamper
mod Tests
use indelible.Common.{
  ℕ, suc, ◌+◌, Bool, true, false, not, ◌&&◌, ◌||◌, List, [], ◌∷◌, ◌++◌, Option, none, some, ◌==◌,
  ltb, if◌then◌else◌, length, keep, Bytes, bytes_eq,
}
use indelible.Common.Int.{pos}
use indelible.Common.Sql.{delete, affected}
use indelible.Common.Joins.{flat_map, is_empty}
use indelible.Quota.Decimal.{int64_to_string}

-- The columns that are hashed are kept as they are written; `user_id` is null for no user.
pub record AuditRow : Type 0 where
  pub id : ℕ
  pub event_type : Bytes
  pub severity : Bytes
  pub user_id : Option ℕ
  pub detail : Bytes
  pub ip_address : Option Bytes
  pub user_agent : Option Bytes
  pub request_id : Bytes
  pub prev_hash : Bytes
  pub row_hash : Bytes

pub record AuditAnchor : Type 0 where
  pub id : ℕ
  pub head_hash : Bytes
  pub row_count : ℕ
  pub network_address : Bytes
  pub tx_hash : Bytes
  pub anchored_at : ℕ

pub record SystemRow : Type 0 where
  pub id : ℕ
  pub level : Bytes
  pub component : Bytes
  pub message : Bytes
  pub detail : Option Bytes
  pub request_id : Bytes
  pub created_at : ℕ

-- The rows stand in the order of their ids.
pub record Logs : Type 0 where
  pub audit_log : List AuditRow
  pub audit_seq : ℕ
  pub audit_anchors : List AuditAnchor
  pub anchor_seq : ℕ
  pub system_log : List SystemRow
  pub system_seq : ℕ

-- The arguments of WriteAudit.
pub record Event : Type 0 where
  pub event_type : Bytes
  pub severity : Bytes
  pub user_id : Option ℕ
  pub detail : Bytes
  pub ip_address : Bytes
  pub user_agent : Bytes
  pub request_id : Bytes

pub record AuditChainResult : Type 0 where
  pub intact : Bool
  pub count : ℕ
  pub broken_at : ℕ
  pub anchor_checked : Bool
  pub anchor_matches : Bool
  pub anchor_address : Bytes

-- A null string is scanned as the empty one.
abbrev pub or_empty : Option Bytes → Bytes
or_empty none = []
or_empty (some b) = b

-- `strconv.FormatInt`, which prints what int64ToString prints.
unfoldable pub user_id_string : Option ℕ → Bytes
user_id_string none = []
user_id_string (some n) = or_empty (int64_to_string (pos n))

-- The last row of a table, the first of `ORDER BY id DESC`.
abbrev pub last {ℓ} : {A : Type ℓ} → Option A → List A → Option A
last o [] = o
last o (x ∷ xs) = last (some x) xs

-- `WHERE row_hash != ''`.
abbrev pub chained : List AuditRow → List AuditRow
chained rs = keep (λ r. not (is_empty r.row_hash)) rs

-- The hash of the last of some chained rows, or one to start from.
abbrev pub last_hash : Bytes → List AuditRow → Bytes
last_hash h [] = h
last_hash h (r ∷ rs) = last_hash r.row_hash rs

abbrev pub audit_genesis_hash : Bytes
audit_genesis_hash = []

unfoldable pub latest_audit_anchor : Logs → Option AuditAnchor
latest_audit_anchor l = last none l.audit_anchors

-- The two statements of AuditChainHead where nothing is written in between; the worker's are apart,
-- below.
unfoldable pub audit_chain_head : Logs → Bytes × ℕ
audit_chain_head l =
    (last_hash audit_genesis_hash (chained l.audit_log), length (chained l.audit_log))

unfoldable pub record_audit_anchor : Logs → Bytes → ℕ → Bytes → Bytes → ℕ → Logs
record_audit_anchor l head_hash row_count address tx_hash now = record l {
  audit_anchors =
      l.audit_anchors
      ++ record {
        id = suc l.anchor_seq;
        head_hash = head_hash;
        row_count = row_count;
        network_address = address;
        tx_hash = tx_hash;
        anchored_at = now;
      }
        ∷ [];
  anchor_seq = suc l.anchor_seq;
}

unfoldable pub write_system : Logs → Bytes → Bytes → Bytes → Bytes → Bytes → ℕ → Logs
write_system l level component message detail request_id now = record l {
  system_log =
      l.system_log
      ++ record {
        id = suc l.system_seq;
        level = level;
        component = component;
        message = message;
        detail = if is_empty detail then none else some detail;
        request_id = request_id;
        created_at = now;
      }
        ∷ [];
  system_seq = suc l.system_seq;
}

unfoldable pub cleanup_old_logs : Logs → ℕ → Logs × ℕ
cleanup_old_logs l cutoff = (
  record l { system_log = delete (λ r. ltb r.created_at cutoff) l.system_log },
  affected (λ r. ltb r.created_at cutoff) l.system_log,
)

-- What is hashed of a row, after the hash before it.
unfoldable pub content : AuditRow → List Bytes
content r =
    r.event_type
    ∷ r.severity
    ∷ user_id_string r.user_id
    ∷ r.detail
    ∷ or_empty r.ip_address
    ∷ or_empty r.user_agent
    ∷ r.request_id
    ∷ []

-- The fields, each with a NUL byte after it.
unfoldable pub preimage : List Bytes → Bytes
preimage fs = flat_map (λ f. f ++ 0 ∷ []) fs

-- The result after the loop.
unfoldable pub conclude : Option AuditAnchor → ℕ → Bytes → AuditChainResult
conclude none count head_at = record {
  intact = true;
  count = count;
  broken_at = 0;
  anchor_checked = false;
  anchor_matches = false;
  anchor_address = [];
}
conclude (some a) count head_at = record {
  intact = true;
  count = count;
  broken_at = 0;
  anchor_checked = true;
  anchor_matches = not (is_empty head_at) && bytes_eq head_at a.head_hash;
  anchor_address = a.network_address;
}

abbrev pub broken : ℕ → ℕ → AuditChainResult
broken count id = record {
  intact = false;
  count = count;
  broken_at = id;
  anchor_checked = false;
  anchor_matches = false;
  anchor_address = [];
}

-- `headAtAnchorCount` after a row, the count of which is the one given.
unfoldable pub note_head : Option AuditAnchor → ℕ → Bytes → Bytes → Bytes
note_head none count row_hash head_at = head_at
note_head (some a) count row_hash head_at = if count == a.row_count then row_hash else head_at

module _ (sha256_hex : Bytes → Bytes) where
  unfoldable pub audit_row_hash : Bytes → List Bytes → Bytes
  audit_row_hash prev_hash fields = sha256_hex (preimage (prev_hash ∷ fields))

  -- The row that WriteAudit inserts after a chain head.
  unfoldable pub audited : Logs → Event → AuditRow
  unfolding user_id_string
  audited l e =
      let prev = last_hash audit_genesis_hash (chained l.audit_log) in
      record {
        id = suc l.audit_seq;
        event_type = e.event_type;
        severity = e.severity;
        user_id = e.user_id;
        detail = e.detail;
        ip_address = some e.ip_address;
        user_agent = some e.user_agent;
        request_id = e.request_id;
        prev_hash = prev;
        row_hash = audit_row_hash prev (
            e.event_type
            ∷ e.severity
            ∷ user_id_string e.user_id
            ∷ e.detail
            ∷ e.ip_address
            ∷ e.user_agent
            ∷ e.request_id
            ∷ []);
      }

  unfoldable pub write_audit : Logs → Event → Logs
  write_audit l e = record l {
    audit_log = l.audit_log ++ audited l e ∷ [];
    audit_seq = suc l.audit_seq;
  }

  -- `storedPrev == prev && storedRow == expected`.
  unfoldable pub links : Bytes → AuditRow → Bool
  links prev r = bytes_eq r.prev_hash prev && bytes_eq r.row_hash (audit_row_hash prev (content r))

  -- The loop, with its running hash, count and head at the anchored count.
  unfoldable pub verify_rows :
      Option AuditAnchor → Bytes → ℕ → Bytes → List AuditRow → AuditChainResult
  verify_rows anchor prev count head_at [] = conclude anchor count head_at
  verify_rows anchor prev count head_at (r ∷ rs) =
      let rest =
        verify_rows anchor r.row_hash (count + 1) (note_head anchor (count + 1) r.row_hash head_at)
          rs in
      if links prev r then rest else broken count r.id

  unfoldable pub verify_audit_chain : Logs → AuditChainResult
  unfolding verify_rows latest_audit_anchor
  verify_audit_chain l =
      verify_rows (latest_audit_anchor l) audit_genesis_hash 0 [] (chained l.audit_log)

unfoldable pub is_anchored : Option AuditAnchor → Bytes → ℕ → Bool
is_anchored none head count = false
is_anchored (some a) head count = a.row_count == count && bytes_eq a.head_hash head

-- anchorOnce up to the first statement of AuditChainHead: the setting, the wallet, and the count.
unfoldable pub begin_anchor : Logs → Bool → Bool → Option ℕ
begin_anchor l enabled has_wallet =
    let count = length (chained l.audit_log) in
    if not enabled || not has_wallet then none else if count == 0 then none else some count

-- From the second statement of AuditChainHead, which reads the head, up to the publication: a head, a
-- head that is not anchored already, and the RPC address. The head and the count are what is published.
unfoldable pub read_head : Logs → ℕ → Bool → Option (Bytes × ℕ)
unfolding latest_audit_anchor is_anchored
read_head l count has_rpc =
    let head = last_hash audit_genesis_hash (chained l.audit_log) in
    if is_empty head
    then none
    else if is_anchored (latest_audit_anchor l) head count
    then none
    else if has_rpc
    then some (head, count)
    else none
