-- ===== src/Client.antt =====
-- client/client.go.
pub mod Types
pub mod Requests
