-- ===== src/Gdb/Session/Replies.antt =====
-- The line that completes a command in command_blocking of src/gdb/gdb_session.cpp.
use gdb_cli_tools.Prelude.{
  ℕ, ◌+◌, ◌≡◌, refl, ◌∙◌, subst, ◌↔◌, ◌⊎◌, inl, inr, true, false, List, [], ◌∷◌, ◌++◌, append_assoc,
  arith, if◌then◌else◌, Bool-cases, every, Bytes, is_digit, same,
}
use gdb_cli_tools.Text.{starts_with}
use gdb_cli_tools.Gdb.Decimal.{to_string, to_string-digits, to_string-injective}
use gdb_cli_tools.Gdb.Session.{
  CommandResult, GdbSession, new_result, log_line, push_record, send, prompt_line, result_class_of,
  command_loop, command_blocking,
}

-- A result record with a token.
abbrev pub result_record : ℕ → Bytes → Bytes
result_record token rest = to_string token ++ b'^' ∷ rest

starts_with-digits :
    (s t rest : Bytes)
    → every is_digit s ≡ true
    → every is_digit t ≡ true
    → starts_with (t ++ b'^' ∷ rest) (s ++ b'^' ∷ []) ≡ true
    → s ≡ t
unfolding starts_with
starts_with-digits [] [] rest h k e = refl
starts_with-digits [] (d ∷ t) rest h k e = absurd (ground arith)
starts_with-digits (c ∷ s) [] rest h k e = absurd (ground arith)
starts_with-digits (c ∷ s) (d ∷ t) rest h k e = ground (arith, starts_with-digits s t rest)

starts_with-append : (s rest : Bytes) → starts_with (s ++ rest) s ≡ true
unfolding starts_with
starts_with-append [] rest = refl
starts_with-append (c ∷ s) rest = ground (arith, starts_with-append s rest)

-- A result record completes the command with its token and no other: the test of command_blocking
-- holds exactly when the tokens are equal.
pub completes_iff :
    (token other : ℕ) (rest : Bytes)
    → (starts_with (result_record other rest) (to_string token ++ b'^' ∷ []) ≡ true)
      ↔ (token ≡ other)
completes_iff token other rest = (
  λ e. to_string-injective token other (
      starts_with-digits (to_string token) (to_string other) rest (to_string-digits token)
        (to_string-digits other) e),
  λ e. rw (← e) (
      subst (λ t. starts_with t (to_string token ++ b'^' ∷ []) ≡ true)
        (append_assoc (to_string token) (b'^' ∷ []) rest)
        (starts_with-append (to_string token ++ b'^' ∷ []) rest)),
)

-- The lines that a command passes over: prompts, and lines that do not begin with its token and ^.
abbrev pub Passes : Bytes → List Bytes → Type 0
Passes prefix [] = Unit
Passes prefix (raw ∷ lines) =
    ((same raw prompt_line ≡ true) ⊎ (starts_with raw (prefix ++ b'^' ∷ []) ≡ false))
    × Passes prefix lines

abbrev pub no_prompts : List Bytes → List Bytes
no_prompts [] = []
no_prompts (raw ∷ lines) = if same raw prompt_line then no_prompts lines else raw ∷ no_prompts lines

not_digits :
    (s rest : Bytes) → every is_digit s ≡ true → same (s ++ b'^' ∷ rest) prompt_line ≡ false
not_digits [] rest h = refl
not_digits (d ∷ s) rest h = ground arith

not_prompt : (token : ℕ) (rest : Bytes) → same (result_record token rest) prompt_line ≡ false
not_prompt token rest = not_digits (to_string token) rest (to_string-digits token)

command_loop_reply :
    (prefix : Bytes) (s : GdbSession) (r : CommandResult) (before : List Bytes) (raw : Bytes)
    (after : List Bytes)
    → Passes prefix before
    → same raw prompt_line ≡ false
    → starts_with raw (prefix ++ b'^' ∷ []) ≡ true
    → let out = command_loop prefix s r (before ++ raw ∷ after) in
      (out.1.raw_lines ≡ r.raw_lines ++ (no_prompts before ++ raw ∷ []))
      × (out.1.result_class ≡ result_class_of prefix raw)
      × (out.1.timed_out ≡ r.timed_out)
      × (out.2 ≡ after)
unfolding command_loop push_record
command_loop_reply prefix s r [] raw after p n e = rw (n, e) (refl, refl, refl, refl)
command_loop_reply prefix s r (x ∷ before) raw after (inl q, p) n e =
    rw q (command_loop_reply prefix (log_line s x) r before raw after p n e)
command_loop_reply prefix s r (x ∷ before) raw after (inr q, p) n e =
    elim (Bool-cases (same x prompt_line)) [
      | inl b ↦ rw b (command_loop_reply prefix (log_line s x) r before raw after p n e)
      | inr b ↦
          rw (b, q)
            (let h =
                command_loop_reply prefix (log_line s x)
                  (push_record r (log_line s x).record_sequence x) before raw after p n e in
              (
                h.0 ∙ append_assoc r.raw_lines (x ∷ []) (no_prompts before ++ raw ∷ []),
                h.1,
                h.2,
                h.3,
              ))
    ]

-- Whatever prompts, asynchronous records and foreign results gdb writes first, a command ends at
-- the first line that begins with its own token and ^: the result has every line up to it but the
-- prompts, in order, and the class that this line gives; the lines behind it are left unread.
pub command_blocking_reply :
    (s : GdbSession) (command : Bytes) (before : List Bytes) (rest : Bytes) (after : List Bytes)
    → Passes (to_string (s.token + 1)) before
    → let out = command_blocking s command (before ++ result_record (s.token + 1) rest ∷ after) in
      (out.1.raw_lines ≡ no_prompts before ++ result_record (s.token + 1) rest ∷ [])
      × (out.1.result_class
          ≡ result_class_of (to_string (s.token + 1)) (result_record (s.token + 1) rest))
      × (out.1.timed_out ≡ false)
      × (out.2 ≡ after)
unfolding command_blocking send
command_blocking_reply s command before rest after p =
    command_loop_reply (to_string (s.token + 1)) (send s command) (new_result command) before _
      after p (not_prompt (s.token + 1) rest)
      ((completes_iff (s.token + 1) (s.token + 1) rest).1 refl)
