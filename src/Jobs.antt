-- ===== src/Jobs.antt =====
-- Background jobs: the job model, the queue with leases, its durable mirror and the store of
-- idempotency keys (src/infrastructure/jobs).
pub mod Tests
pub mod Model
pub mod Queue
pub mod Lease
pub mod Valid
pub mod Claim
pub mod Trace
pub mod Ownership
pub mod Recover
pub mod Idempotency
pub mod Durable
