-- ===== src/Action/Result/Lines.antt =====
-- The lines of action_output_text of src/cli/action.cpp.
use gdb_cli_tools.Prelude.{
  ◌≡◌, refl, ap, ◌∙◌, List, [], ◌∷◌, ◌++◌, map, append_assoc, Bytes, newline,
}
use gdb_cli_tools.Task.Load.{ℤ}
use gdb_cli_tools.Task.Env.{lines_of}
use gdb_cli_tools.Task.Env.Laws.{lines_of-line}
use gdb_cli_tools.Json.Dump.{dump_json}
use gdb_cli_tools.Json.Dump.OneLine.{IsLine, dump_json-IsLine}
use gdb_cli_tools.Action.Result.{
  ActionResult, ActionOutput, action_result_to_json, action_result_line, prelude_text,
  action_output_text,
}

module _ {N : Type 0} (of_int : ℤ → N) (print : N → Bytes)
    (prints : (x : N) → IsLine (print x)) where
  abbrev pub result_text : ActionResult → Bytes
  result_text result = dump_json print (action_result_to_json of_int result)

  lines_of-action_result_line :
      (result : ActionResult) (rest : Bytes)
      → lines_of (action_result_line of_int print result ++ rest)
        ≡ result_text result ∷ lines_of rest
  unfolding action_result_line
  lines_of-action_result_line result rest =
      ap lines_of (append_assoc (result_text result) (newline ∷ []) rest)
      ∙ lines_of-line (result_text result) rest
          (dump_json-IsLine print prints (action_result_to_json of_int result))

  last_line :
      (result : ActionResult)
      → lines_of (action_result_line of_int print result) ≡ result_text result ∷ []
  unfolding action_result_line lines_of
  last_line result =
      lines_of-line (result_text result) []
        (dump_json-IsLine print prints (action_result_to_json of_int result))

  lines_of-prelude_text :
      (results : List ActionResult) (rest : Bytes)
      → lines_of (prelude_text of_int print results ++ rest)
        ≡ map result_text results ++ lines_of rest
  unfolding prelude_text
  lines_of-prelude_text [] rest = refl
  lines_of-prelude_text (result ∷ results) rest =
      ap lines_of (
        append_assoc (action_result_line of_int print result) (prelude_text of_int print results)
          rest)
      ∙ lines_of-action_result_line result (prelude_text of_int print results ++ rest)
      ∙ ap (λ l. result_text result ∷ l) (lines_of-prelude_text results rest)

  -- Where no number is printed with a line feed, the text of an output is one line for each
  -- result, the earlier ones first, and the last line is the final result.
  pub lines_of-action_output_text :
      (output : ActionOutput)
      → lines_of (action_output_text of_int print output)
        ≡ map result_text output.prelude ++ result_text output.final ∷ []
  unfolding action_output_text
  lines_of-action_output_text output =
      lines_of-prelude_text output.prelude (action_result_line of_int print output.final)
      ∙ ap (λ l. map result_text output.prelude ++ l) (last_line output.final)
