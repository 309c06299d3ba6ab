-- ===== src/Cache/Local.antt =====
-- server/cache.go: the in-memory entries of `cache`. Values and negative answers live in two maps,
-- each with the order of its insertions. `c.mu` makes each method one step; the clock is an argument.
-- `json.Marshal` is a parameter: it gives the text of a value, or fails.
pub mod Defs
pub mod Entries
pub mod Evict
pub mod Invariant
pub mod Store
pub mod StoreError
pub mod Read
