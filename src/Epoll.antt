-- ===== src/Epoll.antt =====
-- 012_network_IO/03epoll/server.c: the same service through `epoll`.
pub mod Defs
pub mod Table
pub mod Events
pub mod Loop
