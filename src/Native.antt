-- ===== src/Native.antt =====
-- `NativeExecutor` of internal/app/clients.go and backup.go: the client tools run as processes, which
-- are a parameter, on a credentials file.
pub mod Escape
pub mod Credentials
pub mod Passfile
pub mod Versions
pub mod Process
pub mod Prepare
pub mod Executor
pub mod Told
pub mod Prepared
pub mod Cleanup
