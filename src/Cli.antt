-- ===== src/Cli.antt =====
-- cmd/cli: the command-line client.
pub mod Password
pub mod Signature
pub mod Requests
pub mod Ttls
pub mod Display
pub mod Main
