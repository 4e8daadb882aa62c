-- ===== src/Record.antt =====
-- src/replay/record_store.cpp: the recording of actions and its binary artifact.
pub mod Stream
pub mod Artifact
pub mod Files
pub mod State
