-- ===== src/Task.antt =====
-- src/task/debug_task.cpp: the parts of a task file that are parsed as text.
pub mod Args
pub mod Env
pub mod Fields
pub mod Load
