-- ===== src/Replay/Run/Report.antt =====
-- The results of a replay as JSON texts and as an action result: replay_step_json_fragment,
-- replay_result_action and replay_result_json of src/replay/replay_runtime.cpp. `file` is the path of
-- the replay file.
use gdb_cli_tools.Prelude.{List, [], ◌∷◌, ◌++◌, map, if◌then◌else◌, Bytes, codes, newline}
use gdb_cli_tools.Task.Load.{pos}
use gdb_cli_tools.Gdb.Decimal.{to_string}
use gdb_cli_tools.Json.Text.{escape_string}
use gdb_cli_tools.Action.Kind
use gdb_cli_tools.Action.Result.{
  ActionResult, ResultFields, ResultObjects, text, int, flag, result_array, no_fields, field,
  no_objects, one_object, success, failure, set_field,
}
use gdb_cli_tools.Evidence.Text.{comma_list, field_json, bool_text}
use gdb_cli_tools.Replay.Validate.{int_text}
use gdb_cli_tools.Replay.Run.{ReplayStepRunResult, status_name}
use gdb_cli_tools.Replay.Run.Plan.{ReplayRunResult}

unfoldable pub replay_step_json_fragment : ReplayStepRunResult → Bytes
unfolding comma_list field_json to_string escape_string status_name
replay_step_json_fragment step =
    b'{'
    ∷ (comma_list (
          field_json (codes "index") (to_string step.index)
          ∷ field_json (codes "step_id") (escape_string step.step_id)
          ∷ field_json (codes "action_name") (escape_string step.action_name)
          ∷ field_json (codes "status") (escape_string (status_name step.status))
          ∷ field_json (codes "failure_policy") (escape_string step.failure_policy)
          ∷ field_json (codes "evidence") (escape_string step.evidence_id)
          ∷ field_json (codes "action_evidence") (escape_string step.action_evidence_id)
          ∷ field_json (codes "error_evidence") (escape_string step.error_evidence_id)
          ∷ field_json (codes "error") (escape_string step.error)
          ∷ field_json (codes "skip_reason") (escape_string step.skip_reason)
          ∷ [])
        ++ b'}' ∷ [])

unfoldable pub replay_step_result_object : ReplayStepRunResult → ResultFields
unfolding status_name
replay_step_result_object step = field (codes "index") (int (pos step.index)) (
    field (codes "step_id") (text step.step_id) (
      field (codes "action_name") (text step.action_name) (
        field (codes "status") (text (status_name step.status)) (
          field (codes "failure_policy") (text step.failure_policy) (
            field (codes "evidence") (text step.evidence_id) (
              field (codes "action_evidence") (text step.action_evidence_id) (
                field (codes "error_evidence") (text step.error_evidence_id) (
                  field (codes "error") (text step.error)
                    (field (codes "skip_reason") (text step.skip_reason) no_fields)))))))))

unfoldable pub step_objects : List ReplayStepRunResult → ResultObjects
unfolding replay_step_result_object
step_objects [] = no_objects
step_objects (step ∷ steps) = one_object (replay_step_result_object step) (step_objects steps)

-- action_result_set_string of a list of texts, in their order.
unfoldable pub set_texts : List (Bytes × Bytes) → ActionResult → ActionResult
unfolding set_field
set_texts [] result = result
set_texts ((key, value) ∷ rest) result = set_texts rest (set_field result key (text value))

unfoldable pub replay_result_action : Bytes → ReplayRunResult → ActionResult
unfolding success failure set_texts set_field step_objects
replay_result_action file run =
    let result =
      if run.ok
      then success Kind.replay (codes "replay")
      else failure Kind.replay (codes "replay") run.error in
    let named =
      set_texts
        ((codes "file", file) ∷ (codes "plan", run.plan_name) ∷ (codes "schema", run.schema) ∷ [])
        result in
    let versioned = set_field named (codes "schema_version") (int run.schema_version) in
    let forced = set_field versioned (codes "force") (flag run.force) in
    let matched = set_field forced (codes "task_metadata_match") (flag run.task_metadata_match) in
    let noted =
      set_texts
        ((codes "failure_policy", run.failure_policy)
          ∷ (codes "warning", run.warning)
          ∷ (codes "warning_evidence", run.warning_evidence_id)
          ∷ (codes "error_evidence", run.error_evidence_id)
          ∷ (codes "run_evidence", run.run_evidence_id)
          ∷ [])
        matched in
    set_field noted (codes "steps") (result_array (step_objects run.steps))

unfoldable pub replay_result_json : Bytes → ReplayRunResult → Bytes
unfolding comma_list field_json escape_string int_text replay_step_json_fragment
replay_result_json file result =
    b'{'
    ∷ (comma_list (
          field_json (codes "ok") (bool_text result.ok)
          ∷ field_json (codes "action") (escape_string (codes "replay"))
          ∷ field_json (codes "file") (escape_string file)
          ∷ field_json (codes "plan") (escape_string result.plan_name)
          ∷ field_json (codes "schema") (escape_string result.schema)
          ∷ field_json (codes "schema_version") (int_text result.schema_version)
          ∷ field_json (codes "force") (bool_text result.force)
          ∷ field_json (codes "task_metadata_match") (bool_text result.task_metadata_match)
          ∷ field_json (codes "failure_policy") (escape_string result.failure_policy)
          ∷ field_json (codes "warning") (escape_string result.warning)
          ∷ field_json (codes "warning_evidence") (escape_string result.warning_evidence_id)
          ∷ field_json (codes "error") (escape_string result.error)
          ∷ field_json (codes "error_evidence") (escape_string result.error_evidence_id)
          ∷ field_json (codes "run_evidence") (escape_string result.run_evidence_id)
          ∷ field_json (codes "steps")
              (b'[' ∷ (comma_list (map replay_step_json_fragment result.steps) ++ b']' ∷ []))
          ∷ [])
        ++ b'}' ∷ newline ∷ [])

unfoldable pub run_evidence_text : Bytes → ReplayRunResult → Bytes
unfolding escape_string replay_result_json
run_evidence_text file result =
    codes "{\n  \"file\": "
    ++ (escape_string file
        ++ (codes ",\n  \"result\": " ++ (replay_result_json file result ++ codes "}\n")))
