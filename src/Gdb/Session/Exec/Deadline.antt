-- ===== src/Gdb/Session/Exec/Deadline.antt =====
-- The deadline of exec_control_blocking of src/gdb/gdb_session.cpp.
use gdb_cli_tools.Prelude.{
  ap, ◌+◌, ◌∙◌, Bool-cases, ◌||◌, if◌then◌else◌, ◌≡◌, refl, ◌⊎◌, inl, inr, Bool, true, false, not,
  ◌&&◌, List, [], ◌∷◌, ◌++◌, if_both, Bytes, codes, same,
}
use gdb_cli_tools.Text.{starts_with}
use gdb_cli_tools.Gdb.Decimal.{to_string}
use gdb_cli_tools.Gdb.Session.{
  CommandResult, GdbSession, new_result, log_line, push_record, send, prompt_line, contains,
}
use gdb_cli_tools.Gdb.Session.Exec.{
  stop_fields, says_exited, LoopEnd, exec_loop, interrupt_loop, interrupt_after_deadline,
  finish_exec, exec_control_blocking,
}

exec_loop-timed_out :
    (prefix : Bytes) (saw : Bool) (s : GdbSession) (r : CommandResult) (lines : List Bytes)
    → (exec_loop prefix saw s r lines).1.timed_out ≡ r.timed_out
unfolding exec_loop push_record stop_fields
exec_loop-timed_out prefix saw s r [] = refl
exec_loop-timed_out prefix saw s r (raw ∷ lines) =
    let P = λ (o : LoopEnd). o.1.timed_out ≡ r.timed_out in
    let s' = log_line s raw in
    let kept = push_record r s'.record_sequence raw in
    if_both P (same raw prompt_line) _ _ (λ _. exec_loop-timed_out prefix saw s' r lines)
      λ _.
        if_both P (starts_with raw (prefix ++ codes "^running")) _ _
          (λ _. exec_loop-timed_out prefix true s' kept lines)
          λ _.
            if_both P (contains (codes "*stopped") raw) _ _ (λ _. refl)
              λ _.
                if_both P (says_exited raw) _ _
                  (λ _.
                    exec_loop-timed_out prefix saw s'
                      (record kept { exited = true; stop_reason = codes "exited" }) lines)
                  λ _.
                    if_both P (not saw && starts_with raw (prefix ++ codes "^error")) _ _
                      (λ _. refl) (λ _. exec_loop-timed_out prefix saw s' kept lines)

-- The reason that stands in a result whose deadline has passed.
abbrev pub IsLate : CommandResult → Type 0
IsLate r =
    (r.timed_out ≡ true)
    × ((r.stop_reason ≡ codes "run_deadline_reached")
        ⊎ (r.stop_reason ≡ codes "interrupted_by_tool_deadline"))

interrupt_loop-IsLate :
    (s : GdbSession) (r : CommandResult) (lines : List Bytes)
    → IsLate r
    → IsLate (interrupt_loop s r lines).1
unfolding interrupt_loop push_record
interrupt_loop-IsLate s r [] h = h
interrupt_loop-IsLate s r (raw ∷ lines) h =
    let P = λ (o : GdbSession × CommandResult). IsLate o.1 in
    let s' = log_line s raw in
    if_both P (same raw prompt_line) _ _ (λ _. interrupt_loop-IsLate s' r lines h)
      λ _.
        if_both P (contains (codes "*stopped") raw) _ _ (λ _. (h.0, inr refl))
          (λ _. interrupt_loop-IsLate s' (push_record r s'.record_sequence raw) lines h)

finish_exec-IsLate :
    (late : List Bytes) (o : LoopEnd)
    → o.1.timed_out ≡ false
    → ((finish_exec late o).1.timed_out ≡ not o.2) × ((o.2 ≡ true) ⊎ IsLate (finish_exec late o).1)
unfolding finish_exec interrupt_after_deadline
finish_exec-IsLate late (s, r, true, lines) h = (h, inl refl)
finish_exec-IsLate late (s, r, false, lines) h =
    let r' = record r { timed_out = true; stop_reason = codes "run_deadline_reached" } in
    let k = interrupt_loop-IsLate (send s (codes "-exec-interrupt")) r' late (refl, inl refl) in
    (k.0, inr k)

-- Does a byte list stand for something other than the prompt?
abbrev pub is_record : Bytes → Bool
is_record raw = not (same raw prompt_line)

-- The line that says that the command `prefix` runs.
abbrev pub is_running : Bytes → Bytes → Bool
is_running prefix raw = is_record raw && starts_with raw (prefix ++ codes "^running")

-- A line that reports a stop.
abbrev pub is_stop : Bytes → Bytes → Bool
is_stop prefix raw =
    is_record raw
    && (not (starts_with raw (prefix ++ codes "^running")) && contains (codes "*stopped") raw)

-- A line that reports an error of the command, and nothing of an exit.
abbrev pub is_error : Bytes → Bytes → Bool
is_error prefix raw =
    is_record raw && (not (says_exited raw) && starts_with raw (prefix ++ codes "^error"))

abbrev pub any : (Bytes → Bool) → List Bytes → Bool
any test [] = false
any test (line ∷ lines) = test line || any test lines

-- The lines in front of the first one that says that the command runs.
abbrev pub before_running : Bytes → List Bytes → List Bytes
before_running prefix [] = []
before_running prefix (line ∷ lines) =
    let rest = line ∷ before_running prefix lines in if is_running prefix line then [] else rest

-- A stop among the lines, or an error before the command runs.
abbrev pub is_settled : Bytes → List Bytes → Bool
is_settled prefix lines =
    any (is_stop prefix) lines || any (is_error prefix) (before_running prefix lines)

or_nothing : (x saw : Bool) → (x || false) ≡ (x || (not saw && false))
or_nothing x true = refl
or_nothing x false = refl

or_true : (x : Bool) → true ≡ (x || true)
or_true true = refl
or_true false = refl

-- Whether the loop returns before the deadline.
exec_loop-returns :
    (prefix : Bytes) (saw : Bool) (s : GdbSession) (r : CommandResult) (lines : List Bytes)
    → (exec_loop prefix saw s r lines).2 ≡ (
        any (is_stop prefix) lines
        || (not saw && any (is_error prefix) (before_running prefix lines)))
unfolding exec_loop
exec_loop-returns prefix true s r [] = refl
exec_loop-returns prefix false s r [] = refl
exec_loop-returns prefix saw s r (raw ∷ lines) =
    let s' = log_line s raw in
    let kept = push_record r s'.record_sequence raw in
    let gone = record kept { exited = true; stop_reason = codes "exited" } in
    elim (Bool-cases (same raw prompt_line)) [
      | inl e ↦ rw (e, e) (exec_loop-returns prefix saw s' r lines)
      | inr e ↦ elim (Bool-cases (starts_with raw (prefix ++ codes "^running"))) [
        | inl f ↦
            rw (e, f)
              (exec_loop-returns prefix true s' kept lines
                ∙ or_nothing (any (is_stop prefix) lines) saw)
        | inr f ↦ elim (Bool-cases (contains (codes "*stopped") raw)) [
          | inl g ↦ rw (e, f, g) refl
          | inr g ↦ elim (Bool-cases (says_exited raw)) [
            | inl h ↦ rw (e, f, e, g, h) (exec_loop-returns prefix saw s' gone lines)
            | inr h ↦ elim (Bool-cases (starts_with raw (prefix ++ codes "^error"))) [
              | inr k ↦
                  rw (e, f, e, g, h, k)
                    (elim (Bool-cases saw) [
                      | inl a ↦ rw a (exec_loop-returns prefix true s' kept lines)
                      | inr a ↦ rw a (exec_loop-returns prefix false s' kept lines)
                    ])
              | inl k ↦
                  rw (e, f, e, g, h, k)
                    (elim (Bool-cases saw) [
                      | inl a ↦ rw a (exec_loop-returns prefix true s' kept lines)
                      | inr a ↦ rw a (or_true (any (is_stop prefix) lines))
                    ])
            ]
          ]
        ]
      ]
    ]

-- A command that runs the program is marked as timed out exactly when, of the lines before the
-- deadline, none reports a stop and none before its ^running reports an error of it: a line that
-- holds *stopped is a stop unless it is the prompt or the ^running itself, and a ^error line that
-- tells of an exit is none. A result that is marked has the deadline as its stop reason, or the
-- interrupt that the tool sent, whatever gdb printed before.
pub exec_control_blocking_deadline :
    (s : GdbSession) (command : Bytes) (lines late : List Bytes)
    → let r = (exec_control_blocking s command lines late).1 in
      (r.timed_out ≡ not (is_settled (to_string (s.token + 1)) lines))
      × (r.timed_out ≡ true → IsLate r)
unfolding exec_control_blocking send
exec_control_blocking_deadline s command lines late =
    let s' = send s command in
    let prefix = to_string (s.token + 1) in
    let end = exec_loop prefix false s' (new_result command) lines in
    let (marked, reason) =
      finish_exec-IsLate late end
        (exec_loop-timed_out prefix false s' (new_result command) lines) in
    let returns = exec_loop-returns prefix false s' (new_result command) lines in
    (marked ∙ ap not returns, λ h. elim reason [ inl e ↦ absurd (cc) | inr late_end ↦ late_end ])
