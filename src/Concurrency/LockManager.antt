-- ===== src/Concurrency/LockManager.antt =====
-- src/concurrency/LockManager.cpp, include/concurrency/LockManager.h: the state, the operations, and
-- what they guarantee.
pub mod State
pub mod Request
pub mod Release
pub mod Sets
pub mod Rules
pub mod Ends
pub mod Compatibility
pub mod TwoPhase
pub mod Tracking
pub mod Completion
pub mod WaitQueue
pub mod Covered
pub mod Progress
pub mod Sole
pub mod Alone
pub mod Answers
pub mod Outcome
pub mod Ancestors
