-- ===== src/Gdb.antt =====
-- src/gdb: the gdb child process and the session that talks to it.
pub mod Process
pub mod Decimal
pub mod Session
