-- ===== src/Apps.antt =====
-- The package apps: the servers in front of the handlers.
pub mod Mgmt
pub mod Conns
pub mod Servers
