-- ===== src/Server.antt =====
-- src/server.c: what runs once, at the start and at the end of the server, and the thread for signals.
pub mod Path
pub mod Tls
pub mod Privileges
pub mod LockFile
pub mod Daemon
pub mod Signals
pub mod Shutdown
