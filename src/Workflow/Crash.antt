-- ===== src/Workflow/Crash.antt =====
-- src/workflow/crash_workflow.cpp: what the debugged program wrote since the last look at its logs. A
-- log does not grow between its size and its text; `add_text` is that of the evidence store.
pub mod Log
use gdb_cli_tools.Prelude.{ℕ, [], ltb, leb, if◌then◌else◌, length, is_empty, drop, Bytes, codes}
use gdb_cli_tools.Replay.Run.{source}
use gdb_cli_tools.Evidence.Store.{Source}

-- A log: none that is a regular file, one of a size that cannot be opened, or its text.
pub data LogFile : Type 0 where
  absent : LogFile
  unopened : ℕ → LogFile
  readable : Bytes → LogFile

-- The place to read on from: the start, for a log that has become shorter.
abbrev pub resumed : ℕ → ℕ → ℕ
resumed size offset = if ltb size offset then 0 else offset

-- The text, and the new offset.
unfoldable pub read_text_delta : LogFile → ℕ → Bytes × ℕ
read_text_delta absent offset = ([], offset)
read_text_delta (unopened size) offset = ([], resumed size offset)
read_text_delta (readable s) offset =
    let start = resumed (length s) offset in
    if leb (length s) start then ([], start) else (drop start s, length s)

module _ {W : Type 0} (add_text : Source → Bytes → W → W × Bytes) where
  unfoldable pub add_output : Bytes → Bytes → Bytes → W → W
  add_output title path delta w =
      if is_empty delta
      then w
      else (add_text (source (codes "InferiorOutput") title path) delta w).0

  -- The session and the two offsets.
  unfoldable pub collect_inferior_output :
      Bytes → Bytes → LogFile → LogFile → W × (ℕ × ℕ) → W × (ℕ × ℕ)
  unfolding read_text_delta add_output
  collect_inferior_output stdout_path stderr_path stdout_log stderr_log (w, (out, err)) =
      let (stdout_delta, out') = read_text_delta stdout_log out in
      let (stderr_delta, err') = read_text_delta stderr_log err in
      (
        add_output (codes "Inferior stderr") stderr_path stderr_delta
            (add_output (codes "Inferior stdout") stdout_path stdout_delta w),
        (out', err'),
      )
