-- ===== src/Store.antt =====
-- The package store: cached contents on disk, fetched from their origins.
pub mod Common
pub mod Expires
pub mod Range
pub mod Urls
pub mod World
pub mod Files
pub mod Download
pub mod Follow
pub mod Get
pub mod Purge
pub mod Cleaner
pub mod Lifecycle
pub mod Trash
pub mod History
