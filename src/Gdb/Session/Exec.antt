-- ===== src/Gdb/Session/Exec.antt =====
-- exec_control_blocking and interrupt_after_deadline of src/gdb/gdb_session.cpp: a command that lets
-- the program run, and the interrupt that follows when it has not stopped at the deadline.
pub mod Records
pub mod Deadline
use gdb_cli_tools.Prelude.{
  Bool, true, false, not, ◌&&◌, ◌||◌, List, [], ◌∷◌, ◌++◌, if◌then◌else◌, is_empty, Bytes, codes,
  same,
}
use gdb_cli_tools.Text.{starts_with}
use gdb_cli_tools.Mi.Escape.{field_value}
use gdb_cli_tools.Gdb.Decimal.{to_string}
use gdb_cli_tools.Gdb.Session.{
  CommandResult, GdbSession, new_result, log_line, push_record, send, prompt_line, contains,
}

-- What a line that holds *stopped says of the stop, the fields that the record lacks left empty.
unfoldable pub stop_fields : Bytes → CommandResult → CommandResult
unfolding field_value starts_with
stop_fields raw r =
    let reason = field_value raw (codes "reason") in
    let number = field_value raw (codes "bkptno") in
    record r {
      stop_reason = reason;
      signal_name = field_value raw (codes "signal-name");
      breakpoint_number = if is_empty number then field_value raw (codes "wpt") else number;
      exited = if starts_with reason (codes "exited") then true else r.exited;
    }

-- Does the line say that the program is gone?
unfoldable pub says_exited : Bytes → Bool
says_exited raw =
    contains (codes "=thread-group-exited") raw || contains (codes "reason=\"exited") raw

-- A run of the loop: the session, the result, whether the loop returned before the deadline, and the
-- lines that are left.
abbrev pub LoopEnd : Type 0
LoopEnd = GdbSession × CommandResult × Bool × List Bytes

unfoldable pub exec_loop : Bytes → Bool → GdbSession → CommandResult → List Bytes → LoopEnd
unfolding log_line push_record stop_fields says_exited starts_with
exec_loop prefix saw_running s r [] = (s, r, false, [])
exec_loop prefix saw_running s r (raw ∷ lines) =
    let s' = log_line s raw in
    let kept = push_record r s'.record_sequence raw in
    let skip = exec_loop prefix saw_running s' r lines in
    let running = exec_loop prefix true s' kept lines in
    let gone =
      exec_loop prefix saw_running s' (record kept { exited = true; stop_reason = codes "exited" })
        lines in
    let more = exec_loop prefix saw_running s' kept lines in
    if same raw prompt_line
    then skip
    else if starts_with raw (prefix ++ codes "^running")
    then running
    else if contains (codes "*stopped") raw
    then (s', stop_fields raw kept, true, lines)
    else if says_exited raw
    then gone
    else if not saw_running && starts_with raw (prefix ++ codes "^error")
    then (s', record kept { result_class = codes "error" }, true, lines)
    else more

unfoldable pub interrupt_loop : GdbSession → CommandResult → List Bytes → GdbSession × CommandResult
unfolding log_line push_record field_value
interrupt_loop s r [] = (s, r)
interrupt_loop s r (raw ∷ lines) =
    let s' = log_line s raw in
    let kept = push_record r s'.record_sequence raw in
    let skip = interrupt_loop s' r lines in
    let more = interrupt_loop s' kept lines in
    if same raw prompt_line
    then skip
    else if contains (codes "*stopped") raw
    then (
      s',
      record kept {
        stop_reason = codes "interrupted_by_tool_deadline";
        signal_name = field_value raw (codes "signal-name");
      },
    )
    else more

unfoldable pub interrupt_after_deadline :
    GdbSession → CommandResult → List Bytes → GdbSession × CommandResult
unfolding send interrupt_loop
interrupt_after_deadline s r lines = interrupt_loop (send s (codes "-exec-interrupt")) r lines

-- What follows the loop: at the deadline the program is interrupted, and gdb has five more seconds,
-- in which it prints `late`.
unfoldable pub finish_exec : List Bytes → LoopEnd → GdbSession × CommandResult
unfolding interrupt_after_deadline
finish_exec late (s, r, true, lines) = (s, r)
finish_exec late (s, r, false, lines) =
    interrupt_after_deadline s
      (record r { timed_out = true; stop_reason = codes "run_deadline_reached" }) late

unfoldable pub exec_control_blocking :
    GdbSession → Bytes → List Bytes → List Bytes → GdbSession × CommandResult
unfolding send exec_loop finish_exec
exec_control_blocking s command lines late =
    let s' = send s command in
    finish_exec late (exec_loop (to_string s'.token) false s' (new_result command) lines)
