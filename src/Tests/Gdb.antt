-- ===== src/Tests/Gdb.antt =====
-- Examples for the line reader and the command loops.
use gdb_cli_tools.Prelude.{
  All, none, not, ◌+◌, ◌≡◌, refl, inl, inr, true, false, List, [], ◌∷◌, ◌++◌, arith, length, drop,
  Bytes, codes,
}
use gdb_cli_tools.Gdb.Process.{
  GdbProcess, ReadEvent, chunk, interrupted, timed_out, line, pending, strip_return, read_line,
  find_line,
}
use gdb_cli_tools.Gdb.Process.Stream.{IsValid, spec, view, read_line-spec}
use gdb_cli_tools.Gdb.Process.Chunks.{stream, read_line_chunks}
use gdb_cli_tools.Gdb.Decimal.{to_string}
use gdb_cli_tools.Gdb.Session.{GdbSession, result_class_of, command_blocking}
use gdb_cli_tools.Gdb.Session.Exec.{exec_control_blocking}
use gdb_cli_tools.Gdb.Session.Exec.Records.{exec_control_blocking-Keeps}
use gdb_cli_tools.Gdb.Session.Exec.Deadline.{is_settled, IsLate, exec_control_blocking_deadline}
use gdb_cli_tools.Task.Load.{DebugTask}
use gdb_cli_tools.Gdb.Session.Setup.{Exchange, prints, write_throws, initialize_commands}
use gdb_cli_tools.Gdb.Session.Setup.Lines.{OneLine, initialize_commands-OneLine}
use gdb_cli_tools.Gdb.Session.Records.{Keeps, command_blocking-Keeps}
use gdb_cli_tools.Gdb.Session.Replies.{result_record, no_prompts, command_blocking_reply}
use gdb_cli_tools.Text.{starts_with}

abbrev process : GdbProcess
process = record { buffer = codes "xx12^do"; buffer_start = 2 }

abbrev arrivals : List ReadEvent
arrivals = chunk (codes "n") ∷ interrupted ∷ chunk (codes "e\r\n(gdb)") ∷ timed_out ∷ []

abbrev arrived : List ReadEvent
arrived = chunk (codes "n") ∷ interrupted ∷ chunk (codes "e\r\n(gdb)") ∷ []

read_line-spec_example :
    (view (read_line process arrivals) ≡ spec (pending process) arrivals)
    × IsValid (read_line process arrivals).1
read_line-spec_example = read_line-spec process arrivals (omega arith)

abbrev first_line : Bytes
first_line = codes "12^done\r"

read_line_chunks_example :
    let (reply, p', events') = read_line process arrived in
    (reply ≡ line (strip_return first_line))
    × (stream (pending p') events'
        ≡ drop (length first_line + 1) (stream (pending process) arrived))
read_line_chunks_example =
    read_line_chunks process arrived first_line (omega arith) refl (unfold find_line in refl)

abbrev session : GdbSession
session = record { token = 11; record_sequence = 1; session_log = codes "(gdb)" ∷ []; written = [] }

abbrev earlier : List Bytes
earlier = codes "11^done" ∷ codes "(gdb)" ∷ codes "=library-loaded" ∷ []

command_blocking-Keeps_example :
    let out = command_blocking session (codes "-exec-run") (earlier ++ codes "12^running" ∷ []) in
    Keeps 1 out.0 out.1
command_blocking-Keeps_example =
    command_blocking-Keeps session (codes "-exec-run") (earlier ++ codes "12^running" ∷ []) refl

command_blocking_reply_example :
    let out =
      command_blocking session
        (codes "-stack-list-frames")
        (earlier ++ result_record 12 (codes "done,stack=[]") ∷ codes "(gdb)" ∷ []) in
    (out.1.raw_lines ≡ no_prompts earlier ++ result_record 12 (codes "done,stack=[]") ∷ [])
    × (out.1.result_class
        ≡ result_class_of (to_string 12) (result_record 12 (codes "done,stack=[]")))
    × (out.1.timed_out ≡ false)
    × (out.2 ≡ codes "(gdb)" ∷ [])
unfolding starts_with to_string
command_blocking_reply_example =
    command_blocking_reply session (codes "-stack-list-frames") earlier (codes "done,stack=[]")
      (codes "(gdb)" ∷ []) (inr refl, (inl refl, (inr refl, tt)))

abbrev busy : List Bytes
busy = codes "12^running" ∷ codes "(gdb)" ∷ codes "=thread-created" ∷ []

abbrev late : List Bytes
late = codes "13^done" ∷ codes "*stopped,signal-name=\"SIGINT\"" ∷ []

exec_control_blocking-Keeps_example :
    let out = exec_control_blocking session (codes "-exec-run") busy late in Keeps 1 out.0 out.1
exec_control_blocking-Keeps_example =
    exec_control_blocking-Keeps session (codes "-exec-run") busy late refl

exec_control_blocking_deadline_example :
    let r = (exec_control_blocking session (codes "-exec-run") busy late).1 in
    (r.timed_out ≡ not (is_settled (to_string 12) busy)) × (r.timed_out ≡ true → IsLate r)
exec_control_blocking_deadline_example =
    exec_control_blocking_deadline session (codes "-exec-run") busy late

abbrev task : DebugTask
task = record {
  problem = codes "It crashes.";
  executable = codes "/tmp/a b";
  working_directory = codes "/tmp";
  args_raw = codes "x 'y z'";
  args = codes "x" ∷ codes "y z" ∷ [];
  stdin_path = codes "/dev/null";
  env = (codes "LANG", codes "C") ∷ [];
  run_timeout_ms = 30000;
  core_dump = none;
}

-- Two answers, and a third command of which six bytes are written.
abbrev setup_exchanges : List Exchange
setup_exchanges =
    prints (codes "12^done" ∷ [])
    ∷ prints (codes "13^done" ∷ [])
    ∷ write_throws (codes "14-gdb")
    ∷ []

initialize_commands-OneLine_example : All OneLine (initialize_commands task)
initialize_commands-OneLine_example = initialize_commands-OneLine task ((refl, refl), tt)
