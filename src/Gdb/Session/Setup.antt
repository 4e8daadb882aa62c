-- ===== src/Gdb/Session/Setup.antt =====
-- The first commands of a session: drain_startup, initialize and load_core of
-- src/gdb/gdb_session.cpp. What happens while a command waits is one exchange each; lines that a
-- command leaves are read by the next.
pub mod Script
pub mod Commands
pub mod Lines
use gdb_cli_tools.Prelude.{
  ◌+◌, Bool, true, false, Option, none, some, List, [], ◌∷◌, ◌++◌, if◌then◌else◌, Bytes, codes,
  same,
}
use gdb_cli_tools.Text.{shell_quote_for_report}
use gdb_cli_tools.Mi.Escape.{mi_quote}
use gdb_cli_tools.Task.Load.{DebugTask}
use gdb_cli_tools.Gdb.Session.{CommandResult, GdbSession, log_line, prompt_line, command_blocking}

-- The loop of drain_startup; a read_line without a line is passed over, and the list ends at the deadline.
unfoldable pub drain_startup : GdbSession → List Bytes → GdbSession × List Bytes
unfolding log_line
drain_startup s [] = (s, [])
drain_startup s (raw ∷ lines) =
    let more = drain_startup (log_line s raw) lines in
    if same raw prompt_line then (log_line s raw, lines) else more

unfoldable pub env_commands : List (Bytes × Bytes) → List Bytes
env_commands [] = []
env_commands ((key, value) ∷ env) =
    (codes "-gdb-set environment " ++ (key ++ 32 ∷ value)) ∷ env_commands env

unfoldable pub quoted_args : List Bytes → Bytes
unfolding mi_quote
quoted_args [] = []
quoted_args (arg ∷ args) = 32 ∷ (mi_quote arg ++ quoted_args args)

unfoldable pub args_commands : List Bytes → List Bytes
unfolding quoted_args
args_commands [] = []
args_commands (arg ∷ args) = (codes "-exec-arguments" ++ quoted_args (arg ∷ args)) ∷ []

abbrev pub settings : List Bytes
settings =
    codes "-gdb-set pagination off"
    ∷ codes "-gdb-set confirm off"
    ∷ codes "-gdb-set print pretty on"
    ∷ codes "-gdb-set print object on"
    ∷ codes "-gdb-set print elements 200"
    ∷ codes "-gdb-set print max-depth 4"
    ∷ codes "-gdb-set print repeats 10"
    ∷ []

-- The commands of initialize, in order.
unfoldable pub initialize_commands : DebugTask → List Bytes
unfolding env_commands args_commands mi_quote
initialize_commands task =
    settings
    ++ ((codes "-environment-cd " ++ mi_quote task.working_directory)
        ∷ (env_commands task.env
            ++ ((codes "-file-exec-and-symbols " ++ mi_quote task.executable)
                ∷ args_commands task.args)))

-- What happens to a command: gdb prints lines before the deadline, read_line throws behind some lines,
-- or write_all throws behind some bytes.
pub data Exchange : Type 0 where
  prints : List Bytes → Exchange
  read_throws : List Bytes → Exchange
  write_throws : Bytes → Exchange

-- The session, the lines that are left unread, and whether no exception was thrown.
abbrev pub SetupEnd : Type 0
SetupEnd = GdbSession × List Bytes × Bool

-- The exception of write_all: the token is used up.
unfoldable pub broken_send : GdbSession → Bytes → GdbSession
broken_send s bytes = record s { token = s.token + 1; written = s.written ++ bytes ∷ [] }

-- Commands one after another; `left` is what the last one left unread. A command that is completed
-- does not come to the read that throws. Behind the last exchange gdb prints nothing.
unfoldable pub run_commands : GdbSession → List Bytes → List Bytes → List Exchange → SetupEnd
unfolding command_blocking broken_send
run_commands s [] left exchanges = (s, left, true)
run_commands s (command ∷ commands) left [] =
    let out = command_blocking s command left in run_commands out.0 commands out.2 []
run_commands s (command ∷ commands) left (prints lines ∷ exchanges) =
    let out = command_blocking s command (left ++ lines) in
    run_commands out.0 commands out.2 exchanges
run_commands s (command ∷ commands) left (read_throws lines ∷ exchanges) =
    let out = command_blocking s command (left ++ lines) in
    let rest = run_commands out.0 commands out.2 exchanges in
    if out.1.timed_out then (out.0, out.2, false) else rest
run_commands s (command ∷ commands) left (write_throws bytes ∷ exchanges) =
    (broken_send s bytes, left, false)

unfoldable pub initialize : GdbSession → DebugTask → List Bytes → List Exchange → SetupEnd
unfolding run_commands initialize_commands
initialize s task left exchanges = run_commands s (initialize_commands task) left exchanges

-- `none` is the exception "core dump path is missing".
unfoldable pub load_core :
    GdbSession → DebugTask → List Bytes → Option (GdbSession × CommandResult × List Bytes)
unfolding command_blocking mi_quote shell_quote_for_report
load_core s task lines = elim task.core_dump [
  | none ↦ none
  | some path ↦ some (
      command_blocking s
        (codes "-interpreter-exec console "
          ++ mi_quote (codes "core-file " ++ shell_quote_for_report path))
        lines)
]
