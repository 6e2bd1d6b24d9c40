-- ===== src/Tacacs.antt =====
-- pkg/tacacs and the TACACS+ client of cmd/cli/tacacs_client.go.
pub mod Header
pub mod Crypt
pub mod Authen
pub mod Author
pub mod Server
pub mod Client
