-- ===== src/Process.antt =====
-- 004_process, 005_process_IPC and 008process_Relation: programs that arrange the descriptors of a
-- process, over an interface to the kernel.
pub mod Kernel
pub mod Daemon
pub mod Wrapper
pub mod Session
pub mod Pipe
pub mod Nonblock
pub mod Limit
pub mod Orphan
pub mod Adopted
pub mod Wait
pub mod Reaped
