-- ===== src/Replay/Run.antt =====
-- src/replay/replay_runtime.cpp: the steps of a replay. `W` is the session with its evidence store,
-- the probes and the outcome; `Session` has the two calls that the replay makes on it. A call of
-- add_text that throws is left out, and so are the paths: `stem` is path.stem().string() and `file`
-- lexically_normal().string() of the replay file.
pub mod Plan
pub mod Report
pub mod File
use gdb_cli_tools.Prelude.{
  ℕ, Bool, true, false, not, List, [], ◌∷◌, ◌++◌, if◌then◌else◌, Bytes, codes, newline,
}
use gdb_cli_tools.Gdb.Decimal.{to_string}
use gdb_cli_tools.Json.Text.{escape_string}
use gdb_cli_tools.Json.Dump.{dump_json}
use gdb_cli_tools.Action.{ActionRequest, request}
use gdb_cli_tools.Action.Kind
use gdb_cli_tools.Action.Fields.{Numbers}
use gdb_cli_tools.Action.Export.{action_request_to_json}
use gdb_cli_tools.Action.Parse.{or_text}
use gdb_cli_tools.Action.Result.{
  ActionResult, ActionOutput, text, failure, set_field, action_output_text,
}
use gdb_cli_tools.Evidence.Store.{Source}

-- What execute_session_operation gives: an output, or an exception with its text.
pub data Executed : Type 0 where
  returned : ActionOutput → Executed
  thrown : Bytes → Executed

-- execute_session_operation with the origin ReplayStep, and add_text of the evidence store, which
-- gives the id of the evidence.
pub record Session (W : Type 0) : Type 0 where
  pub execute : ActionRequest → W → W × Executed
  pub add_text : Source → Bytes → W → W × Bytes

pub data StepStatus : Type 0 where
  step_success step_failed step_skipped : StepStatus

unfoldable pub status_name : StepStatus → Bytes
status_name step_success = codes "success"
status_name step_failed = codes "failed"
status_name step_skipped = codes "skipped"

pub record ReplayStepRunResult : Type 0 where
  pub index : ℕ
  pub step_id : Bytes
  pub action_name : Bytes
  pub status : StepStatus
  pub failure_policy : Bytes
  pub evidence_id : Bytes
  pub error_evidence_id : Bytes
  pub action_evidence_id : Bytes
  pub error : Bytes
  pub skip_reason : Bytes

-- A step of a plan: its place, its names and its policy.
pub record ReplayActionStep : Type 0 where
  pub index : ℕ
  pub step_id : Bytes
  pub name : Bytes
  pub failure_policy : Bytes

-- The text "{", a line for each field with a comma between two, "}".
unfoldable pub field_lines : List (Bytes × Bytes) → Bytes
field_lines [] = []
field_lines ((key, value) ∷ []) = codes "  \"" ++ (key ++ (codes "\": " ++ (value ++ newline ∷ [])))
field_lines ((key, value) ∷ next ∷ rest) =
    codes "  \""
    ++ (key ++ (codes "\": " ++ (value ++ (b',' ∷ newline ∷ field_lines (next ∷ rest)))))

unfoldable pub object_text : List (Bytes × Bytes) → Bytes
unfolding field_lines
object_text fields = b'{' ∷ newline ∷ (field_lines fields ++ b'}' ∷ newline ∷ [])

-- "key": json_escape(value)
abbrev pub quoted : Bytes → Bytes → Bytes × Bytes
quoted key value = (key, escape_string value)

-- The fields that the evidence of each step begins with.
unfoldable pub step_fields :
    Bytes → ReplayActionStep → Bytes → List (Bytes × Bytes) → List (Bytes × Bytes)
unfolding escape_string to_string
step_fields plan_name step action_name rest =
    quoted (codes "plan") plan_name
    ∷ quoted (codes "step_id") step.step_id
    ∷ (codes "index", to_string step.index)
    ∷ quoted (codes "action_name") action_name
    ∷ rest

-- A result with nothing but what the step says.
abbrev pub blank_step : ReplayActionStep → Bytes → StepStatus → ReplayStepRunResult
blank_step step action_name status = record {
  index = step.index;
  step_id = step.step_id;
  action_name = action_name;
  status = status;
  failure_policy = step.failure_policy;
  evidence_id = [];
  error_evidence_id = [];
  action_evidence_id = [];
  error = [];
  skip_reason = [];
}

abbrev pub source : Bytes → Bytes → Bytes → Source
source kind title command = record { kind = kind; title = title; command = command }

-- The world, the results that go into the output's prelude, and the result of the step.
abbrev pub Stepped : Type 0 → Type 0
Stepped W = W × (List ActionResult × ReplayStepRunResult)

module _ {W : Type 0} (session : Session W) where
  unfoldable pub write_skipped_replay_step :
      Bytes → ReplayActionStep → Bytes → W → W × ReplayStepRunResult
  unfolding object_text step_fields escape_string status_name
  write_skipped_replay_step plan_name step skip_reason w =
      let (w₁, id) =
        session.add_text
          (source (codes "ReplayStep") (codes "Replay step " ++ (step.step_id ++ codes " skipped"))
            step.name)
          (object_text (
            step_fields plan_name step step.name (
              quoted (codes "status") (codes "skipped")
              ∷ quoted (codes "failure_policy") step.failure_policy
              ∷ quoted (codes "skip_reason") skip_reason
              ∷ [])))
          w in
      (
        w₁,
        record (blank_step step step.name step_skipped) {
          evidence_id = id;
          skip_reason = skip_reason;
        },
      )

  -- A step without an action object.
  unfoldable pub missing_action_step : Bytes → ReplayActionStep → W → W × ReplayStepRunResult
  unfolding object_text step_fields escape_string
  missing_action_step plan_name step w =
      let (w₁, id) =
        session.add_text
          (source (codes "ToolError") (codes "Replay step missing action " ++ step.step_id)
            plan_name)
          (object_text (
            step_fields plan_name step step.name (
              quoted (codes "status") (codes "failed")
              ∷ quoted (codes "failure_policy") step.failure_policy
              ∷ quoted (codes "error") (codes "missing action object")
              ∷ [])))
          w in
      (
        w₁,
        record (blank_step step step.name step_failed) {
          evidence_id = id;
          error_evidence_id = id;
          error = codes "missing action object";
        },
      )

  module _ {N : Type 0} (numbers : Numbers N) (print : N → Bytes) where
    abbrev pub output_text : ActionOutput → Bytes
    output_text output = action_output_text numbers.of_int print output

    abbrev pub action_text : ActionRequest → Bytes
    action_text action = dump_json print (action_request_to_json numbers action)

    -- The evidence ToolError of a step that reports a failure.
    unfoldable pub note_failure :
        Bytes → ReplayActionStep → Bytes → Bytes → Bytes → Bool → W → W × Bytes
    unfolding object_text step_fields escape_string
    note_failure plan_name step action_name error response false w = (w, [])
    note_failure plan_name step action_name error response true w =
        session.add_text
          (source (codes "ToolError") (codes "Replay step reported failure " ++ step.step_id)
            action_name)
          (object_text (
            step_fields plan_name step action_name (
              quoted (codes "failure_policy") step.failure_policy
              ∷ quoted (codes "error") error
              ∷ quoted (codes "response") response
              ∷ [])))
          w

    unfoldable pub returned_step :
        Bytes → ReplayActionStep → ActionRequest → Bytes → ActionOutput → W → Stepped W
    unfolding object_text step_fields escape_string note_failure status_name
    returned_step plan_name step action action_name output w =
        let failed = not output.final.ok in
        let status = if failed then step_failed else step_success in
        let error = if failed then output.final.error else [] in
        let action_evidence = or_text output.final.evidence_id output.final.command_evidence_id in
        let (w₁, error_id) =
          note_failure plan_name step action_name error (output_text output) failed w in
        let (w₂, id) =
          session.add_text
            (source (codes "ReplayStep")
              (codes "Replay step " ++ (step.step_id ++ (codes " " ++ status_name status)))
              action_name)
            (object_text (
              step_fields plan_name step action_name (
                quoted (codes "status") (status_name status)
                ∷ quoted (codes "failure_policy") step.failure_policy
                ∷ quoted (codes "action_json") (action_text action)
                ∷ quoted (codes "action_evidence") action_evidence
                ∷ quoted (codes "error_evidence") error_id
                ∷ quoted (codes "error") error
                ∷ quoted (codes "response") (output_text output)
                ∷ [])))
            w₁ in
        (
          w₂,
          (
            output.prelude ++ output.final ∷ [],
            record (blank_step step action_name status) {
              evidence_id = id;
              error_evidence_id = error_id;
              action_evidence_id = action_evidence;
              error = error;
            },
          ),
        )

    unfoldable pub thrown_step :
        Bytes → ReplayActionStep → ActionRequest → Bytes → Bytes → W → Stepped W
    unfolding object_text step_fields escape_string failure set_field
    thrown_step plan_name step action action_name what w =
        let (w₁, id) =
          session.add_text
            (source (codes "ToolError") (codes "Replay step failed " ++ step.step_id) action_name)
            (object_text (
              step_fields plan_name step action_name (
                quoted (codes "status") (codes "failed")
                ∷ quoted (codes "failure_policy") step.failure_policy
                ∷ quoted (codes "action") (action_text action)
                ∷ quoted (codes "error") what
                ∷ [])))
            w in
        let emitted = record (failure Kind.replay (codes "replay_step") what) {
          evidence_id = id;
        } in
        (
          w₁,
          (
            set_field emitted (codes "step_id") (text step.step_id) ∷ [],
            record (blank_step step action_name step_failed) {
              evidence_id = id;
              error_evidence_id = id;
              error = what;
            },
          ),
        )

    unfoldable pub executed_step :
        Bytes → ReplayActionStep → ActionRequest → Bytes → W × Executed → Stepped W
    unfolding returned_step thrown_step
    executed_step plan_name step action action_name (w, returned output) =
        returned_step plan_name step action action_name output w
    executed_step plan_name step action action_name (w, thrown what) =
        thrown_step plan_name step action action_name what w

    -- The name under which a step reports its action.
    abbrev pub step_action_name : ReplayActionStep → ActionRequest → Bytes
    step_action_name step (request kind action held) =
        or_text (or_text action step.name) (codes "unknown")

    unfoldable pub replay_action_step : Bytes → ReplayActionStep → ActionRequest → W → Stepped W
    unfolding executed_step
    replay_action_step plan_name step action w =
        executed_step plan_name step action (step_action_name step action)
          (session.execute action w)
