-- ===== src/Net.antt =====
-- common/net.py.
pub mod Host
pub mod Resolve
pub mod Connect
mod Tests
