-- ===== src/Client.antt =====
-- internal/cliclient: the bridge's side of a connection.
pub mod Router
pub mod Files
pub mod Handlers
