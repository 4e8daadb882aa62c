-- ===== src/Gdb/Session/Exec/Records.antt =====
-- The records that exec_control_blocking of src/gdb/gdb_session.cpp keeps, and the session log.
use gdb_cli_tools.Prelude.{
  ℕ, Bool, true, false, not, ◌&&◌, List, [], ◌∷◌, ◌++◌, arith, if_both, Bytes, codes, same,
}
use gdb_cli_tools.Text.{starts_with}
use gdb_cli_tools.Gdb.Session.{
  CommandResult, GdbSession, new_result, log_line, push_record, send, prompt_line, contains,
}
use gdb_cli_tools.Gdb.Session.Records.{
  IsCounted, Keeps, log_line-Keeps, push_record-Keeps, send-IsCounted,
}
use gdb_cli_tools.Gdb.Session.Exec.{
  stop_fields, says_exited, LoopEnd, exec_loop, interrupt_loop, interrupt_after_deadline,
  finish_exec, exec_control_blocking,
}

stop_fields-Keeps :
    (start : ℕ) (s : GdbSession) (r : CommandResult) (raw : Bytes)
    → Keeps start s r
    → Keeps start s (stop_fields raw r)
unfolding stop_fields
stop_fields-Keeps start s r raw k = record {
  counted = k.counted;
  logged = k.logged;
  rising = k.rising;
}

send-Keeps :
    (start : ℕ) (s : GdbSession) (r : CommandResult) (command : Bytes)
    → Keeps start s r
    → Keeps start (send s command) r
unfolding send
send-Keeps start s r command k = record {
  counted = k.counted;
  logged = k.logged;
  rising = k.rising;
}

exec_loop-Keeps :
    (start : ℕ) (prefix : Bytes) (saw : Bool) (s : GdbSession) (r : CommandResult)
    (lines : List Bytes)
    → Keeps start s r
    → let out = exec_loop prefix saw s r lines in Keeps start out.0 out.1
unfolding exec_loop
exec_loop-Keeps start prefix saw s r [] k = k
exec_loop-Keeps start prefix saw s r (raw ∷ lines) k =
    let P = λ (o : LoopEnd). Keeps start o.0 o.1 in
    let s' = log_line s raw in
    let kept = push_record r s'.record_sequence raw in
    let k' = push_record-Keeps start s r raw k in
    if_both P (same raw prompt_line) _ _
      (λ _. exec_loop-Keeps start prefix saw s' r lines (log_line-Keeps start s r raw k))
      λ _.
        if_both P (starts_with raw (prefix ++ codes "^running")) _ _
          (λ _. exec_loop-Keeps start prefix true s' kept lines k')
          λ _.
            if_both P (contains (codes "*stopped") raw) _ _
              (λ _. stop_fields-Keeps start s' kept raw k')
              λ _.
                if_both P (says_exited raw) _ _
                  (λ _.
                    exec_loop-Keeps start prefix saw s' _ lines
                      (record { counted = k'.counted; logged = k'.logged; rising = k'.rising }))
                  λ _.
                    if_both P (not saw && starts_with raw (prefix ++ codes "^error")) _ _
                      (λ _. record { counted = k'.counted; logged = k'.logged; rising = k'.rising })
                      (λ _. exec_loop-Keeps start prefix saw s' kept lines k')

interrupt_loop-Keeps :
    (start : ℕ) (s : GdbSession) (r : CommandResult) (lines : List Bytes)
    → Keeps start s r
    → let out = interrupt_loop s r lines in Keeps start out.0 out.1
unfolding interrupt_loop
interrupt_loop-Keeps start s r [] k = k
interrupt_loop-Keeps start s r (raw ∷ lines) k =
    let P = λ (o : GdbSession × CommandResult). Keeps start o.0 o.1 in
    let s' = log_line s raw in
    let k' = push_record-Keeps start s r raw k in
    if_both P (same raw prompt_line) _ _
      (λ _. interrupt_loop-Keeps start s' r lines (log_line-Keeps start s r raw k))
      λ _.
        if_both P (contains (codes "*stopped") raw) _ _
          (λ _. record { counted = k'.counted; logged = k'.logged; rising = k'.rising })
          (λ _. interrupt_loop-Keeps start s' _ lines k')

finish_exec-Keeps :
    (start : ℕ) (late : List Bytes) (o : LoopEnd)
    → Keeps start o.0 o.1
    → let out = finish_exec late o in Keeps start out.0 out.1
unfolding finish_exec interrupt_after_deadline
finish_exec-Keeps start late (s, r, true, lines) k = k
finish_exec-Keeps start late (s, r, false, lines) k =
    let r' = record r { timed_out = true; stop_reason = codes "run_deadline_reached" } in
    interrupt_loop-Keeps start (send s (codes "-exec-interrupt")) r' late (
      send-Keeps start s r' (codes "-exec-interrupt")
        (record { counted = k.counted; logged = k.logged; rising = k.rising }))

-- Whether the program stops, exits, fails to start or is interrupted at the deadline: the session's
-- counter stays the length of its log, and each record of the result is the line of the log at its
-- sequence number; the numbers rise strictly and are above those of every earlier command.
pub exec_control_blocking-Keeps :
    (s : GdbSession) (command : Bytes) (lines late : List Bytes)
    → IsCounted s
    → let out = exec_control_blocking s command lines late in Keeps s.record_sequence out.0 out.1
unfolding exec_control_blocking
exec_control_blocking-Keeps s command lines late h = finish_exec-Keeps s.record_sequence late _ (
    exec_loop-Keeps s.record_sequence _ false (send s command) (new_result command) lines (record {
      counted = send-IsCounted s command h;
      logged = tt;
      rising = unfold send in omega arith;
    }))
