-- ===== src/Orcas/L1L2.antt =====
-- orcas/l1l2.go: the orchestrator over a small fast handler, L1, in front of a large one, L2.
pub mod Writes
pub mod Keys
pub mod Reads
pub mod Levels
pub mod Gat
pub mod Fill
pub mod Agreement
pub mod Outcomes
pub mod Served
pub mod Answered
pub mod Query
pub mod Errors
