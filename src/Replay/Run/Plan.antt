-- ===== src/Replay/Run/Plan.antt =====
-- replay_json_plan of src/replay/replay_runtime.cpp: the loop over the steps of a plan with its
-- failure policies, and what comes before it. `parse` is parse_action_request with fuel enough.
pub mod Laws
pub mod Stop
use gdb_cli_tools.Prelude.{
  ℕ, ◌+◌, Bool, true, false, not, Option, none, some, List, [], ◌∷◌, ◌++◌, if◌then◌else◌, is_empty,
  Bytes, codes, same,
}
use gdb_cli_tools.Task.Load.{ℤ, DebugTask}
use gdb_cli_tools.Gdb.Decimal.{to_string}
use gdb_cli_tools.Json.Text.{escape_string}
use gdb_cli_tools.Json.Value.{Json, Items, array, object, no_items, item, find, string_or, bool_or}
use gdb_cli_tools.Action.{ActionRequest}
use gdb_cli_tools.Action.Fields.{Numbers}
use gdb_cli_tools.Action.Parse.{or_text}
use gdb_cli_tools.Action.Result.{ActionResult}
use gdb_cli_tools.Evidence.Text.{bool_text}
use gdb_cli_tools.Replay.Policy.{policy_continue, policy_stop, normalize_replay_failure_policy}
use gdb_cli_tools.Replay.Validate.{ReplayPlanValidation, validate_replay_plan, replay_plan_schema}
use gdb_cli_tools.Replay.Run.{
  Session, StepStatus, step_failed, ReplayStepRunResult, ReplayActionStep, Stepped, object_text,
  quoted, source, write_skipped_replay_step, missing_action_step, replay_action_step,
}

pub record ReplayRunResult : Type 0 where
  pub ok : Bool
  pub force : Bool
  pub task_metadata_match : Bool
  pub plan_name : Bytes
  pub schema : Bytes
  pub schema_version : ℤ
  pub failure_policy : Bytes
  pub warning : Bytes
  pub warning_evidence_id : Bytes
  pub error : Bytes
  pub error_evidence_id : Bytes
  pub run_evidence_id : Bytes
  pub steps : List ReplayStepRunResult

-- The variables of the loop: the session, the output's prelude, result.ok, result.steps, and the
-- reason to skip, `none` while stop_due_to_failure is false.
pub record LoopState (W : Type 0) : Type 0 where
  pub world : W
  pub prelude : List ActionResult
  pub ok : Bool
  pub steps : List ReplayStepRunResult
  pub stop : Option Bytes

abbrev pub is_failed : StepStatus → Bool
is_failed step_failed = true
is_failed _ = false

-- std::to_string-like id of a step without one: 'a' and the index.
abbrev pub default_id : ℕ → Bytes
default_id index = b'a' ∷ to_string index

module _ {W : Type 0} where
  -- result.steps.push_back, with the results that the step adds to the prelude.
  unfoldable pub push_step : LoopState W → Stepped W → LoopState W
  push_step loop (w, (results, r)) = record loop {
    world = w;
    prelude = loop.prelude ++ results;
    steps = loop.steps ++ r ∷ [];
  }

  -- What a failed step does to the loop: result.ok, and the stop under stop_on_error.
  unfoldable pub after_step : ReplayStepRunResult → LoopState W → LoopState W
  after_step r loop =
      if is_failed r.status
      then record loop {
        ok = false;
        stop =
            (if same r.failure_policy policy_stop
              then some
                  (codes "previous step " ++ (r.step_id ++ codes " failed under stop_on_error"))
              else loop.stop);
      }
      else loop

  unfoldable pub push_result : LoopState W → Stepped W → LoopState W
  unfolding push_step after_step
  push_result loop (w, (results, r)) = after_step r (push_step loop (w, (results, r)))

-- A step that adds nothing to the prelude.
abbrev pub silent : {W : Type 0} → W × ReplayStepRunResult → Stepped W
silent (w, r) = (w, ([], r))

module _ {N W : Type 0} (session : Session W) (numbers : Numbers N) (print : N → Bytes)
    (parse : Json N → ActionRequest) (plan_name plan_policy : Bytes) where
  -- The step of an object: its id, its name and its policy.
  unfoldable pub step_of : ℕ → Json N → ReplayActionStep
  unfolding string_or to_string normalize_replay_failure_policy
  step_of index json = record {
    index = index;
    step_id = or_text (string_or json (codes "id") []) (default_id index);
    name = string_or json (codes "name") (codes "unknown");
    failure_policy =
        normalize_replay_failure_policy (string_or json (codes "failure_policy") []) plan_policy;
  }

  unfoldable pub run_step : ReplayActionStep → Option (Json N) → LoopState W → LoopState W
  unfolding push_result replay_action_step missing_action_step
  run_step step (some (object m)) loop =
      push_result loop
        (replay_action_step session numbers print plan_name step (parse (object m)) loop.world)
  run_step step _ loop =
      push_result loop (silent (missing_action_step session plan_name step loop.world))

  unfoldable pub skip_step : ReplayActionStep → Bytes → LoopState W → LoopState W
  unfolding push_step write_skipped_replay_step
  skip_step step reason loop =
      push_step loop (silent (write_skipped_replay_step session plan_name step reason loop.world))

  unfoldable pub object_step : ReplayActionStep → Json N → Option Bytes → LoopState W → LoopState W
  unfolding skip_step run_step find bool_or
  object_step step json (some reason) loop = skip_step step reason loop
  object_step step json none loop =
      if bool_or json (codes "enabled") true
      then run_step step (find json (codes "action")) loop
      else skip_step step (codes "step disabled") loop

  unfoldable pub item_step : ℕ → Json N → LoopState W → LoopState W
  unfolding step_of object_step skip_step to_string
  item_step index (object m) loop = object_step (step_of index (object m)) (object m) loop.stop loop
  item_step index _ loop =
      skip_step
        (record {
          index = index;
          step_id = default_id index;
          name = codes "unknown";
          failure_policy = plan_policy;
        })
        (codes "step is not an object") loop

  unfoldable pub steps_loop : ℕ → Items N → LoopState W → LoopState W
  unfolding item_step
  steps_loop index no_items loop = loop
  steps_loop index (item json items) loop =
      steps_loop (index + 1) items (item_step (index + 1) json loop)

-- The evidence text of a plan that is rejected or warned about.
unfoldable pub plan_note : Bytes → Bytes → Bool → ReplayPlanValidation → Bytes → Bytes → Bytes
unfolding object_text escape_string
plan_note plan_name file force validation key value = object_text (
    quoted (codes "plan") plan_name
    ∷ quoted (codes "file") file
    ∷ (codes "force", bool_text force)
    ∷ (codes "task_metadata_match", bool_text validation.task_metadata_match)
    ∷ quoted (codes "plan_fingerprint") validation.plan_fingerprint
    ∷ quoted (codes "current_fingerprint") validation.current_fingerprint
    ∷ quoted key value
    ∷ [])

module _ {N W : Type 0} (session : Session W) (numbers : Numbers N) (print : N → Bytes)
    (parse : Json N → ActionRequest) (stem file : Bytes) where
  -- The result behind validate_replay_plan.
  unfoldable pub validated_result : Json N → Bool → ReplayPlanValidation → ReplayRunResult
  unfolding string_or
  validated_result plan force validation = record {
    ok = validation.ok;
    force = force;
    task_metadata_match = validation.task_metadata_match;
    plan_name = string_or plan (codes "name") stem;
    schema = or_text validation.schema replay_plan_schema;
    schema_version = validation.schema_version;
    failure_policy = policy_continue;
    warning = validation.warning;
    warning_evidence_id = [];
    error = [];
    error_evidence_id = [];
    run_evidence_id = [];
    steps = [];
  }

  unfoldable pub note_warning : ReplayRunResult → ReplayPlanValidation → W → W × Bytes
  unfolding plan_note
  note_warning result validation w =
      let note =
        session.add_text
          (source (codes "ReplayWarning") (codes "Replay plan warning") result.plan_name)
          (plan_note result.plan_name file result.force validation (codes "warning")
            validation.warning)
          w in
      if is_empty validation.warning then (w, []) else note

  abbrev pub Replayed : Type 0
  Replayed = W × (List ActionResult × ReplayRunResult)

  unfoldable pub rejected :
      ReplayRunResult → ReplayPlanValidation → List ActionResult → W → Replayed
  unfolding plan_note
  rejected result validation prelude w =
      let (w₁, id) =
        session.add_text
          (source (codes "ToolError") (codes "Replay plan rejected") result.plan_name)
          (plan_note result.plan_name file result.force validation (codes "error") validation.error)
          w in
      (w₁, (prelude, record result { error = validation.error; error_evidence_id = id }))

  -- The loop, from the warning on.
  unfoldable pub accepted :
      Json N
      → Items N
      → Bytes
      → ReplayRunResult
      → ReplayPlanValidation
      → List ActionResult
      → W
      → Replayed
  unfolding note_warning steps_loop string_or normalize_replay_failure_policy
  accepted plan items override result validation prelude w =
      let (w₁, warning_id) = note_warning result validation w in
      let policy =
        normalize_replay_failure_policy override
          (string_or plan (codes "failure_policy") policy_continue) in
      let loop =
        steps_loop session numbers print parse result.plan_name policy 0 items
          (record { world = w₁; prelude = prelude; ok = true; steps = []; stop = none }) in
      (
        loop.world,
        (
          loop.prelude,
          record result {
            ok = loop.ok;
            failure_policy = policy;
            warning_evidence_id = warning_id;
            steps = loop.steps;
          },
        ),
      )

  unfoldable pub replay_items :
      Json N → Items N → Option DebugTask → Bool → Bytes → List ActionResult → W → Replayed
  unfolding validate_replay_plan validated_result rejected accepted
  replay_items plan items task force override prelude w =
      let validation = validate_replay_plan numbers.to_int plan task force in
      let result = validated_result plan force validation in
      let run = accepted plan items override result validation prelude w in
      if validation.ok then run else rejected result validation prelude w

  -- `none` is the exception "replay plan missing actions array".
  unfoldable pub replay_json_plan :
      Json N → Option DebugTask → Bool → Bytes → List ActionResult → W → Option Replayed
  unfolding replay_items find
  replay_json_plan plan task force override prelude w = elim (find plan (codes "actions")) [
    | some actions ↦ elim actions [
      | array items ↦ some (replay_items plan items task force override prelude w)
      | _ ↦ none
    ]
    | none ↦ none
  ]
