-- ===== src/Cdn.antt =====
-- The package cdn: what a client's request asks of the store, and the answer to it.
pub mod Common
pub mod Writer
pub mod Encoder
pub mod StatusCode
pub mod Handler
pub mod Upload
