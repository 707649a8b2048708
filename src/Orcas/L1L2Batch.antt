-- ===== src/Orcas/L1L2Batch.antt =====
-- orcas/l1l2batch.go: the orchestrator over L1 and L2 for clients that write in batches, which puts
-- nothing into L1 that L1 does not hold.
pub mod Writes
pub mod Keys
pub mod Reads
pub mod Outcomes
pub mod Gets
pub mod Levels
pub mod Agreement
pub mod Fill
mod Tests
