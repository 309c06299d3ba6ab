-- ===== src/Cache.antt =====
-- server/cache.go: the value cache and its flights.
pub mod Local
pub mod Flight
