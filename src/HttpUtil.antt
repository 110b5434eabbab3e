-- ===== src/HttpUtil.antt =====
-- The package httputil: header directives, Cache-Control, hosts and client addresses.
pub mod Options
pub mod CacheControl
pub mod Host
