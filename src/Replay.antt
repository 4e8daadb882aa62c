-- ===== src/Replay.antt =====
-- src/replay/replay_plan.cpp: what a replay plan says of failures and of the task it was made for.
-- src/replay/replay_runtime.cpp: the run of a replay.
pub mod Policy
pub mod Run
pub mod Plan
pub mod Fingerprint
pub mod Validate
