-- ===== src/ThreadPool.antt =====
-- 013threadPoll/threadpool.c: the pool of worker threads over a circular task queue.
-- The `int` fields are numbers: each decrement stands behind a test.
pub mod Defs
pub mod Adjust
pub mod System
pub mod Queue
pub mod Sections
pub mod Invariant
pub mod Safety
pub mod Turns
pub mod Progress
pub mod Simulate
pub mod Refine
pub mod Main
pub mod Growth
pub mod Faults
