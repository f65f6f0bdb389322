-- ===== src/Delegation.antt =====
-- Delegated agent tasks: src/cywl_oopz/features/agent/delegation/.
pub mod Models
pub mod Rows
pub mod Notices
pub mod Submissions
pub mod Calls
pub mod Lifecycle
pub mod Held
pub mod Moves
pub mod Steps
pub mod Runs
pub mod Numbering
pub mod Claims
pub mod Scheduler
pub mod Operations
pub mod Counting
pub mod Limits
pub mod Loop
pub mod Capacity
pub mod Work
pub mod Shrinking
pub mod Scheduling
pub mod Restart
