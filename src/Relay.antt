-- ===== src/Relay.antt =====
-- A connection end to end: internal/cliclient/router.go on the bridge's side, the gateway's
-- verification of frames, and cmd/agbridge/daemon.go on the other.
pub mod Sealed
pub mod Sending
pub mod Upstream
pub mod Desync
pub mod Writing
pub mod Reading
