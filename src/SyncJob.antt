-- ===== src/SyncJob.antt =====
-- The queue of synchronisation jobs: app/services/sync_job_service.py over the table `sync_jobs` of
-- app/models/balance.py. The definitions stand in the first modules, the proofs in the others.
pub mod Store
pub mod Key
pub mod Queue
pub mod Claim
pub mod Settle
pub mod Worker
pub mod Invariant
pub mod Dedupe
pub mod ClaimLaws
pub mod ClaimOnce
pub mod Recovery
pub mod Ran
pub mod RunLaws
mod Tests
