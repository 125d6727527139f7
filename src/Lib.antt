-- ===== src/Lib.antt =====
-- A model of the core of indelible, a file store on the Autonomi network, and its correctness.
--
-- The program is a Go server. Its services keep their state in SQL tables, a worker takes uploads
-- from a queue in one of these tables, a cache keeps downloaded files on disk, and a limiter guards
-- the HTTP handlers. A table is a list of rows in insertion order, a SQL statement a function on it
-- (Common/Sql), and an operation a function from the state to the new state with its result or error.
-- Times, random values and what a system call answers are arguments.
--
-- Parts and files, with the sources from the repository's root:
--   Upload       internal/services/upload.go and transaction.go: Row has the tables, Marks the marks
--                of the worker (MarkCompleted and the others), Queue the queue and its sweeps,
--                Payments the ledger, Removal deletion and the purge log. The children of these hold
--                the proofs: Payments/Sticky, Payments/Floor, Queue/Oldest, Queue/Claim, Queue/Sweep,
--                Removal/Delete, Keys with its children.
--   Permission   internal/services/permission.go: levels, direct and by group, and administrators.
--   Groups       internal/services/group.go, on the directory that Permission reads.
--                Members and Roster follow the rows, Listed what ListMembers shows of them.
--   Token        internal/services/token.go: API tokens, validation and revocation.
--   Quota        internal/services/quota.go: Decimal has int64ToString and strconv.ParseInt, Check the
--                tiers, Entities and Systems the rows of the table. It reads uploads, tokens and
--                memberships through the types of those parts.
--   DownloadCache  internal/downloadcache/downloadcache.go: the store with its disk. Steps are the
--                sections under its lock; Closure reduces every run of them to four changes.
--   CacheSweep   internal/worker/cache_sweep.go: Loops has the loop of the three sweeps, Budget and
--                Inactive two of them; Reconcile, Purges, Reads and Tail are about deletions.
--                It works on the store of DownloadCache and the purge log of Upload.
--   Audit        internal/services/log.go, the audit chain, and internal/worker/audit_anchor.go, in the
--                interleaving of Worker: Chain and Anchors keep the chain, Verified and Tamper say what
--                VerifyAuditChain finds.
--   Collection   internal/services/collection.go: Tree says what is under a collection, Delete is about
--                the recursive deletion; Consistent, Insert and Rows are about all calls.
--   Crypto       internal/crypto/encrypt.go and keyring.go: Hex is encoding/hex, Cipher, Rings and
--                Envelope are about the key ring, Rotate and Rotated about the rotation of the key,
--                internal/services/keyrotation.go.
--   Wallet       internal/services/wallet.go, with the key ring of Crypto.
--   RateLimit    internal/middleware/ratelimit.go: the limiter.
--   Common       lists, tests, Go strings as bytes, int64 and the SQL statements.
--
-- Parameters stand for code outside the repository: SHA-256, AES-GCM, of which the theorems suppose
-- what its documentation says, the bcrypt comparison, the CAST of a text in SQL, of which the
-- quota theorems suppose that it agrees with ParseInt where that reads a number, and the order in which
-- ValidateSecret and ListMembers get their rows, since their SELECTs have no ORDER BY: an arrangement
-- of which the theorems suppose only that it neither adds nor drops a row.
-- Foreign keys are checked against the users for revocations, permissions and memberships, against the
-- wallets and uploads for transactions, and against the transactions for the deletion of uploads and
-- wallets; where the other table is not modelled, the state has its ids. The owner of a new upload,
-- token or collection is taken to exist.
--
-- Bounds: the sums of quotas are checked against 2^63 and wrap at 2^64 as the code's int64 does;
-- int64ToString fills at most its 20 bytes, which is enough for every int64. Identifiers, sizes and
-- times are natural numbers. The loops on fuel are that of int64ToString, where the free bytes of the
-- buffer bound it, and those of the cache sweeper: a sweep takes an entry in every round but the last,
-- so it has one more round than there are entries, and the reading of the purge log one more than the
-- log has rows. The deletion of a collection has one more level than the last id, since a child has a
-- greater id than its parent.
--
-- Not modelled: errors of the database connection, listings that sort and page, the walk of the cache
-- scan over the directory tree, log lines and counters, the HTTP handlers and templates, start-up and
-- configuration, the network client and the signer, the queries and exports of the logs. Tags,
-- webhooks, users, sessions and the upload worker's loop are parts of the program that this library
-- does not cover.
pub mod Common
pub mod Permission
pub mod Upload
pub mod Wallet
pub mod Token
pub mod Quota
pub mod DownloadCache
pub mod RateLimit
pub mod Groups
pub mod Audit
pub mod CacheSweep
pub mod Collection
pub mod Crypto
