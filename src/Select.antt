-- ===== src/Select.antt =====
-- 012_network_IO/01select/server.c: one process that serves many clients through `select`.
pub mod Defs
pub mod Scan
pub mod Table
pub mod Serve
pub mod Loop
pub mod Client
