-- ===== src/Gateway.antt =====
-- server/gateway.go: the HTTP gateway.
pub mod Bots
pub mod Resolve
pub mod Preview
pub mod Edge
pub mod Serve
