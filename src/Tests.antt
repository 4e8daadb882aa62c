-- ===== src/Tests.antt =====
-- The examples: each property of the development that has conditions, at a concrete input.
mod Json
mod Mi
mod Record
mod Replay
mod Action
mod Evidence
mod Gdb
mod Text
mod Task
mod Workflow
