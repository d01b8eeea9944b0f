-- ===== src/Concurrency.antt =====
-- src/concurrency and include/concurrency: locks, the lock manager, the wait-for graph.
pub mod Lock
pub mod LockManager
pub mod WaitForGraph
pub mod Tests
