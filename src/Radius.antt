-- ===== src/Radius.antt =====
-- The RADIUS server: cmd/server/handler.go and the packet handler of cmd/server/main.go.
pub mod Walk
pub mod Attributes
pub mod Extract
pub mod Signature
pub mod Response
pub mod Mschap
pub mod Decide
pub mod Breakdown
pub mod Packet
