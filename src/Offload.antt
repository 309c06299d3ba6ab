-- ===== src/Offload.antt =====
-- The offload links: server/gateway.go `offloadRoute` and server/offload_signer.go.
pub mod Route
pub mod Signer
