-- ===== src/Backup.antt =====
-- internal/app/backup.go
pub mod Destination
pub mod Write
pub mod Buffer
pub mod Keeps
pub mod Files
pub mod Stored
pub mod Marker
pub mod Calm
pub mod Elsewhere
