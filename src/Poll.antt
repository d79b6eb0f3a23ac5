-- ===== src/Poll.antt =====
-- 012_network_IO/02poll/server.c: the same service through `poll`.
pub mod Defs
pub mod Scan
pub mod Table
pub mod Entries
pub mod Loop
pub mod Opened
