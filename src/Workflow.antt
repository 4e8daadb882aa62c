-- ===== src/Workflow.antt =====
-- src/workflow: the hypotheses of a session, their assertions and their index; the logs of the program.
pub mod Scan
pub mod Assertion
pub mod Store
pub mod Crash
