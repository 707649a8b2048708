-- ===== src/Orcas/Locked.antt =====
-- orcas/locked.go: the orchestrator that takes a lock for each key around the methods of another
-- one. A method's run is told with the locks that it takes and gives back, in the order of the calls.
-- The Go runtime's panics are values here. `lock.Lock()` waits in Threads, and not here.
pub mod Buckets
pub mod Sets
pub mod Calls
pub mod Methods
pub mod Reads
pub mod Runs
pub mod Threads
mod Tests
