-- ===== src/Worker.antt =====
-- internal/app/worker.go
pub mod Methods
pub mod Stamp
pub mod Law
pub mod Claiming
pub mod Expiry
pub mod Lifecycle
pub mod Planning
pub mod Paths
pub mod Intact
pub mod Recovery
pub mod Settled
pub mod Retention
pub mod Waiting
pub mod Drain
