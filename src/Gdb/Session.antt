-- ===== src/Gdb/Session.antt =====
-- The command loops of src/gdb/gdb_session.cpp. The lines that read_line gives before the deadline
-- are a list; at its end the deadline has passed, or read_line gave nothing. An exception of write_all
-- or read_line, which ends the command and goes to the caller, is in Gdb/Session/Setup only.
pub mod Records
pub mod Replies
pub mod Exec
pub mod Setup
use gdb_cli_tools.Prelude.{
  ℕ, ◌+◌, Bool, true, false, not, none, some, List, [], ◌∷◌, ◌++◌, ◌==◌, if◌then◌else◌, length,
  drop, Bytes, codes, newline, same,
}
use gdb_cli_tools.Text.{starts_with}
use gdb_cli_tools.Mi.Escape.{after_text}
use gdb_cli_tools.Mi.Value.{span}
use gdb_cli_tools.Gdb.Decimal.{to_string}

pub record CommandResult : Type 0 where
  pub command : Bytes
  pub raw_lines : List Bytes
  pub record_sequences : List ℕ
  pub result_class : Bytes
  pub stop_reason : Bytes
  pub signal_name : Bytes
  pub breakpoint_number : Bytes
  pub timed_out : Bool
  pub exited : Bool

-- The counters of GdbSession, the session log line by line, and what was written to gdb.
pub record GdbSession : Type 0 where
  pub token : ℕ
  pub record_sequence : ℕ
  pub session_log : List Bytes
  pub written : List Bytes

abbrev pub new_result : Bytes → CommandResult
new_result command = record {
  command = command;
  raw_lines = [];
  record_sequences = [];
  result_class = [];
  stop_reason = [];
  signal_name = [];
  breakpoint_number = [];
  timed_out = false;
  exited = false;
}

-- The new number is the session's record_sequence behind the call.
unfoldable pub log_line : GdbSession → Bytes → GdbSession
log_line s line = record s {
  record_sequence = s.record_sequence + 1;
  session_log = s.session_log ++ line ∷ [];
}

-- result.record_sequences.push_back(sequence); result.raw_lines.push_back(raw)
unfoldable pub push_record : CommandResult → ℕ → Bytes → CommandResult
push_record r sequence raw = record r {
  record_sequences = r.record_sequences ++ sequence ∷ [];
  raw_lines = r.raw_lines ++ raw ∷ [];
}

-- ++token_, and the command on the wire behind the token.
unfoldable pub send : GdbSession → Bytes → GdbSession
unfolding to_string
send s command = record s {
  token = s.token + 1;
  written = s.written ++ (to_string (s.token + 1) ++ (command ++ newline ∷ [])) ∷ [];
}

abbrev pub prompt_line : Bytes
prompt_line = codes "(gdb)"

abbrev pub contains : Bytes → Bytes → Bool
contains needle s = elim (after_text needle s) [ none ↦ false | some _ ↦ true ]

-- The class of a completed command: what follows the token and ^, up to a comma.
unfoldable pub result_class_of : Bytes → Bytes → Bytes
unfolding span
result_class_of prefix raw = (span (λ c. not (c == b',')) (drop (length prefix + 1) raw)).0

-- The loop of command_blocking: the session, the result and the lines that are left.
unfoldable pub command_loop :
    Bytes → GdbSession → CommandResult → List Bytes → GdbSession × CommandResult × List Bytes
unfolding starts_with log_line push_record result_class_of
command_loop prefix s r [] = (s, record r { timed_out = true }, [])
command_loop prefix s r (raw ∷ lines) =
    let s' = log_line s raw in
    let kept = push_record r s'.record_sequence raw in
    let skip = command_loop prefix s' r lines in
    let more = command_loop prefix s' kept lines in
    if same raw prompt_line
    then skip
    else if starts_with raw (prefix ++ b'^' ∷ [])
    then (s', record kept { result_class = result_class_of prefix raw }, lines)
    else more

unfoldable pub command_blocking :
    GdbSession → Bytes → List Bytes → GdbSession × CommandResult × List Bytes
unfolding send command_loop
command_blocking s command lines =
    let s' = send s command in command_loop (to_string s'.token) s' (new_result command) lines
