-- ===== src/Tests/Workflow.antt =====
-- Examples for the assertions of hypotheses, where the C functions read no number, and for the logs
-- of the debugged program.
use gdb_cli_tools.Prelude.{
  ◌≡◌, ℕ, Option, none, Bytes, codes, List, ◌∷◌, [], ◌++◌, false, true, drop, Bool, arith,
}
use gdb_cli_tools.Task.Load.{ℤ}
use gdb_cli_tools.Workflow.Assertion.{evaluate_hypothesis_assertion}
use gdb_cli_tools.Workflow.Assertion.Opposites.{Denies, Opposite, denied_assertion}
use gdb_cli_tools.Workflow.Crash.Log.{appended, read_log, read_log_lem}

abbrev no_int : Bytes → Option ℤ
no_int s = none

abbrev no_address : Bytes → Option ℕ
no_address s = none

denied_assertion_example :
    Opposite
      (evaluate_hypothesis_assertion no_int no_address
        (codes "not_equals")
        (codes " 7")
        (codes "8"))
      (evaluate_hypothesis_assertion no_int no_address (codes "equals") (codes " 7") (codes "8"))
denied_assertion_example =
    denied_assertion no_int no_address (codes "not_equals") (codes "equals") (codes " 7")
      (codes "8") Denies.not_equals_denies

-- Two lines, behind the first of which the log cannot be opened.
abbrev reads : List (Bytes × Bool)
reads = (codes "one", false) ∷ (codes "two", true) ∷ []

read_log_lem_example : read_log reads (codes "zero") 2 ≡ drop 2 (codes "zero" ++ appended reads)
read_log_lem_example = read_log_lem reads (codes "zero") 2 (omega arith)
