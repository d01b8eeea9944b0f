-- ===== src/Shell.antt =====
-- src/main.cpp: the command loop.
pub mod State
pub mod Resources
pub mod Commands
pub mod Pending
pub mod Dispatch
pub mod Recover
pub mod Tests
pub mod Input
pub mod Values
pub mod Rules
pub mod AccessRules
pub mod CommandRules
pub mod Program
pub mod Sound
pub mod Agreement
pub mod Consistency
pub mod Locks
pub mod Executed
pub mod Lines
pub mod Isolation
pub mod Scenarios
