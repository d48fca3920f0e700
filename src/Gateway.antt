-- ===== src/Gateway.antt =====
-- internal/gateway: the rendezvous server.
pub mod Creds
pub mod Registry
pub mod Sessions
pub mod Tokens
pub mod Enroll
pub mod Server
