-- ===== src/Sockets.antt =====
-- 011network and 012_network_IO/05unix_socket_domain: servers with one client at a time.
pub mod Client
pub mod Server
pub mod Unix
pub mod Stream
pub mod Inet
pub mod Clients
pub mod Multicast
pub mod Names
pub mod Accept
pub mod Address
