-- ===== src/Threads.antt =====
-- 009_thread: programs that create threads in a loop, what becomes of their stacks, and a thread
-- that is asked to end.
pub mod Create
pub mod Stack
pub mod Cancel
