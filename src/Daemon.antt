-- ===== src/Daemon.antt =====
-- cmd/agbridge/daemon.go: a session of the daemon on one connection.
pub mod Session
pub mod Dispatch
pub mod Handlers
pub mod Run
pub mod Stall
pub mod Access
