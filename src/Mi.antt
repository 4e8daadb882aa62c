-- ===== src/Mi.antt =====
-- src/gdb/mi_utils.cpp: the texts and records of the GDB/MI protocol.
pub mod Escape
pub mod Value
pub mod Audit
pub mod Summary
