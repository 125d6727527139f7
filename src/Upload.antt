-- ===== src/Upload.antt =====
-- internal/services/upload.go and internal/services/transaction.go: the upload records, their life
-- from the queue to the network, the payments recorded for them and the purge log of their bytes.
pub mod Row
pub mod Marks
pub mod Queue
pub mod Payments
pub mod Removal
pub mod Keys
mod Tests
