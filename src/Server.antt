-- ===== src/Server.antt =====
-- internal/app/server.go
pub mod Attempts
pub mod Throttle
pub mod Panel
pub mod Submitted
pub mod Sessions
pub mod Access
pub mod Law
pub mod Dry
pub mod History
pub mod Intact
pub mod Download
pub mod Pages
pub mod Password
pub mod Login
pub mod Handler
pub mod Shown
pub mod Guard
pub mod Serving
pub mod Opened
pub mod SignIn
pub mod Overview
pub mod Texts
