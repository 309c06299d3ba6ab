-- ===== src/Tests.antt =====
-- Concrete runs of the models.
pub mod Links
pub mod Gates
pub mod Caches
pub mod Posts
pub mod Races
pub mod Flights
pub mod Gateways
pub mod Captions
pub mod Hunts
pub mod Pools
pub mod Serving
pub mod Startups
pub mod Stores
