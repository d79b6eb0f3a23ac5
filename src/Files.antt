-- ===== src/Files.antt =====
-- 002_file and 005_process_IPC: programs that move bytes between descriptors.
pub mod Copy
pub mod Access
pub mod Mapped
pub mod Pipe
pub mod Stat
pub mod Shared
pub mod Message
pub mod Sharing
