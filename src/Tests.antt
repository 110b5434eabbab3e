-- ===== src/Tests.antt =====
-- Runs of the definitions on concrete inputs, and the theorems applied to them.
pub mod Locks
pub mod Contents
pub mod Text
pub mod Answers
pub mod Upkeep
pub mod Setup
pub mod Service
pub mod Pipes
pub mod Lives
