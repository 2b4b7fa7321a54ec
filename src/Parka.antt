-- ===== src/Parka.antt =====
-- internal/parka: keyed work with a dynamic concurrency limit.
pub mod Deque
pub mod Int
pub mod WorkState
pub mod Handle
pub mod Tasks
pub mod Goroutine
pub mod System
pub mod KeyMutex
pub mod Schedule
mod Examples
