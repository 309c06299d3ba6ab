-- ===== src/Fetch.antt =====
-- server/fetch.go: how requests to Instagram are made, and what their answers mean.
pub mod Gate
pub mod Staged
pub mod Json
pub mod Interpret
pub mod Pool
pub mod Via
