-- ===== src/Tools.antt =====
-- internal/tools: the daemon's tools.
pub mod Buffer
pub mod Background
pub mod Payload
pub mod Text
pub mod ReadFile
pub mod Edit
pub mod Exec
pub mod Transfer
