-- ===== src/Tests.antt =====
-- Concrete runs: each theorem that has hypotheses or parameters, at an input that meets them.
pub mod Pool
pub mod Sync
pub mod Network
pub mod Select
pub mod Epoll
pub mod Programs
pub mod Process
pub mod Schedules
pub mod Exchanges
pub mod Loops
pub mod Signals
pub mod Families
pub mod Setup
