-- ===== src/Signals.antt =====
-- 007singnal: sets of pending signals, handlers, and a sleep made of an alarm.
pub mod Pending
pub mod Sleep
pub mod Kernel
pub mod Handler
pub mod Once
pub mod Watch
pub mod Tokens
