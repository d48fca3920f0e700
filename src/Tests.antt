-- ===== src/Tests.antt =====
-- Runs of the modelled code of this repository on concrete inputs.
pub mod Fixtures
mod Wire
mod Secrets
mod Server
mod Tables
mod Enrolment
mod Background
mod Dialing
mod Files
mod Stored
mod Link
mod Through
mod Logging
