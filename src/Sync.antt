-- ===== src/Sync.antt =====
-- 010_thread_sync: threads that share a variable, a queue or a list.
pub mod Process
pub mod Locked
pub mod Unlocked
pub mod Semaphore
pub mod Condition
pub mod ReadWrite
