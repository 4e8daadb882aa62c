-- ===== src/Task/Args.antt =====
-- parse_shell_like_args of src/task/debug_task.cpp: the argument line of a task file.
pub mod RoundTrip
use gdb_cli_tools.Prelude.{
  ℕ, Bool, true, false, not, ◌&&◌, ◌||◌, Option, none, some, List, [], ◌∷◌, ◌++◌, ◌==◌,
  if◌then◌else◌, Bytes, quote_mark, backslash, is_space,
}

pub record ArgState : Type 0 where
  pub args : List Bytes
  pub current : Bytes
  pub in_single : Bool
  pub in_double : Bool
  pub escaping : Bool
  pub have_token : Bool

abbrev pub start : ArgState
start = record {
  args = [];
  current = [];
  in_single = false;
  in_double = false;
  escaping = false;
  have_token = false;
}

unfoldable pub finish_token : ArgState → ArgState
finish_token s =
    if s.have_token
    then record s { args = s.args ++ s.current ∷ []; current = []; have_token = false }
    else s

-- One round of the loop over the text.
unfoldable pub step : ArgState → ℕ → ArgState
unfolding finish_token
step s c =
    if s.escaping
    then record s { current = s.current ++ c ∷ []; have_token = true; escaping = false }
    else if c == backslash && not s.in_single
    then record s { escaping = true; have_token = true }
    else if c == b'\'' && not s.in_double
    then record s { in_single = not s.in_single; have_token = true }
    else if c == quote_mark && not s.in_single
    then record s { in_double = not s.in_double; have_token = true }
    else if is_space c && (not s.in_single && not s.in_double)
    then finish_token s
    else record s { current = s.current ++ c ∷ []; have_token = true }

unfoldable pub run : ArgState → Bytes → ArgState
run s [] = s
run s (c ∷ text) = run (step s c) text

-- `none` is the exception "unterminated quote in args".
unfoldable pub parse_shell_like_args : Bytes → Option (List Bytes)
unfolding run step finish_token
parse_shell_like_args text =
    let s = run start text in
    let s' = if s.escaping then record s { current = s.current ++ backslash ∷ [] } else s in
    if s'.in_single || s'.in_double then none else some (finish_token s').args
