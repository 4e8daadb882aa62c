-- ===== src/Replay/Plan.antt =====
-- The plan that src/replay/replay_plan.cpp writes for the actions of an artifact. The text is what is
-- given to write_text_file; `created_at` is the time stamp.
use gdb_cli_tools.Prelude.{ℕ, ◌+◌, Option, none, some, List, [], ◌∷◌, ◌++◌, Bytes, codes, newline}
use gdb_cli_tools.Text.{slugify}
use gdb_cli_tools.Task.Load.{DebugTask}
use gdb_cli_tools.Gdb.Decimal.{to_string}
use gdb_cli_tools.Json.Text.{json_escape}
use gdb_cli_tools.Json.Value.{Json}
use gdb_cli_tools.Json.Dump.{dump_json}
use gdb_cli_tools.Action.{ActionRequest}
use gdb_cli_tools.Action.Fields.{Numbers}
use gdb_cli_tools.Action.Export.{action_request_to_json}
use gdb_cli_tools.Replay.Policy.{policy_continue, normalize_replay_failure_policy}
use gdb_cli_tools.Replay.Fingerprint.{summarize_problem, replay_task_fingerprint}
use gdb_cli_tools.Replay.Validate.{replay_plan_schema}
use gdb_cli_tools.Replay.Run.Plan.{default_id}
use gdb_cli_tools.Replay.Run.File.{replay_action_display_name}

-- The items with a comma between two, and the bracket.
unfoldable pub array_items : List Bytes → Bytes
unfolding json_escape
array_items [] = codes "]"
array_items (s ∷ []) = json_escape s ++ codes "]"
array_items (s ∷ next ∷ rest) = json_escape s ++ (b',' ∷ array_items (next ∷ rest))

unfoldable pub json_string_array : List Bytes → Bytes
unfolding array_items
json_string_array items = b'[' ∷ array_items items

-- "key":value, on one line.
abbrev pub inline_field : Bytes → Bytes → Bytes
inline_field key value = b'"' ∷ (key ++ (codes "\":" ++ value))

abbrev pub path_or_null : Option Bytes → Bytes
path_or_null none = codes "null"
path_or_null (some path) = json_escape path

unfoldable pub replay_task_metadata_json : DebugTask → Bytes
unfolding json_escape summarize_problem json_string_array replay_task_fingerprint
replay_task_metadata_json task =
    b'{'
    ∷ (inline_field (codes "problem_summary") (json_escape (summarize_problem task.problem))
        ++ (b','
            ∷ (inline_field (codes "executable") (json_escape task.executable)
                ++ (b','
                    ∷ (inline_field (codes "working_directory") (json_escape task.working_directory)
                        ++ (b','
                            ∷ (inline_field (codes "args") (json_escape task.args_raw)
                                ++ (b','
                                    ∷ (inline_field (codes "argv") (json_string_array task.args)
                                        ++ (b','
                                            ∷ (inline_field (codes "core_dump")
                                                  (path_or_null task.core_dump)
                                                ++ (b','
                                                    ∷ (inline_field (codes "fingerprint") (
                                                          json_escape
                                                            (replay_task_fingerprint task))
                                                        ++ codes "}")))))))))))))

-- `indent`"key": value, and `ending`.
abbrev pub plan_line : Bytes → Bytes → Bytes → Bytes → Bytes
plan_line indent key value ending =
    indent ++ (b'"' ∷ (key ++ (codes "\": " ++ (value ++ (ending ++ newline ∷ [])))))

abbrev pub top_line : Bytes → Bytes → Bytes
top_line key value = plan_line (codes "  ") key value (codes ",")

abbrev pub step_line : Bytes → Bytes → Bytes
step_line key value = plan_line (codes "      ") key value (codes ",")

module _ {N : Type 0} (numbers : Numbers N) (print : N → Bytes) where
  unfoldable pub plan_step : ℕ → Json N → Bytes
  unfolding json_escape to_string replay_action_display_name dump_json
  plan_step index action =
      codes "    {"
      ++ (newline
          ∷ (step_line (codes "id") (json_escape (default_id index))
              ++ (step_line (codes "name") (json_escape (replay_action_display_name action index))
                  ++ (step_line (codes "enabled") (codes "true")
                      ++ (step_line (codes "tags") (codes "[]")
                          ++ (step_line (codes "failure_policy") (codes "null")
                              ++ (plan_line (codes "      ") (codes "action")
                                    (dump_json print action) []
                                  ++ codes "    }")))))))

  -- The steps, a comma behind each but the last.
  unfoldable pub plan_steps : ℕ → List ActionRequest → Bytes
  unfolding plan_step action_request_to_json
  plan_steps index [] = []
  plan_steps index (action ∷ []) =
      plan_step (index + 1) (action_request_to_json numbers action) ++ newline ∷ []
  plan_steps index (action ∷ next ∷ rest) =
      plan_step (index + 1) (action_request_to_json numbers action)
      ++ (b',' ∷ newline ∷ plan_steps (index + 1) (next ∷ rest))

  abbrev pub metadata_or_null : Option DebugTask → Bytes
  metadata_or_null none = codes "null"
  metadata_or_null (some task) = replay_task_metadata_json task

  unfoldable pub write_replay_plan :
      Bytes → Bytes → List ActionRequest → Option DebugTask → Bytes → Bytes → List Bytes → Bytes
  unfolding plan_steps json_escape json_string_array slugify normalize_replay_failure_policy
      replay_task_metadata_json
  write_replay_plan created_at name actions task source_session_id failure_policy tags =
      codes "{"
      ++ (newline
          ∷ (top_line (codes "schema") (json_escape replay_plan_schema)
              ++ (top_line (codes "schema_version") (codes "1")
                  ++ (top_line (codes "id") (json_escape (codes "replay-" ++ slugify name))
                      ++ (top_line (codes "name") (json_escape name)
                          ++ (top_line (codes "tags") (json_string_array tags)
                              ++ (top_line (codes "source_session_id")
                                    (json_escape source_session_id)
                                  ++ (top_line (codes "created_at") (json_escape created_at)
                                      ++ (top_line (codes "failure_policy") (
                                            json_escape (
                                              normalize_replay_failure_policy failure_policy
                                                policy_continue))
                                          ++ (top_line (codes "task") (metadata_or_null task)
                                              ++ (codes "  \"actions\": ["
                                                  ++ (newline
                                                      ∷ (plan_steps 0 actions
                                                          ++ (codes "  ]"
                                                            ++ (newline ∷ b'}' ∷ newline
                                                            ∷ [])))))))))))))))
