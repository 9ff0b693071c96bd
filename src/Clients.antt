-- ===== src/Clients.antt =====
-- internal/app/clients.go: which client tools serve which server version.
-- Native runs the tools.
pub mod Versions
pub mod Matrix
pub mod Numeral
pub mod Offered
