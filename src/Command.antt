-- ===== src/Command.antt =====
-- cmd/baseguard/main.go: the commands of the program, and its start.
pub mod Program
pub mod Ready
pub mod Steps
pub mod Start
pub mod Service
pub mod Shutdown
pub mod Lifetime
