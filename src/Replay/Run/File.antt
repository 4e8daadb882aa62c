-- ===== src/Replay/Run/File.antt =====
-- replay_action_file of src/replay/replay_runtime.cpp: a replay file is a recorded artifact, a plan, a
-- single action or a file of one action on each line. The result that is given back and kept as
-- evidence.
pub mod Laws
use gdb_cli_tools.Prelude.{
  ℕ, ◌+◌, Bool, true, false, Option, none, some, List, [], ◌∷◌, ◌++◌, ◌==◌, if◌then◌else◌, Bytes,
  codes,
}
use gdb_cli_tools.Prelude.Parsed
use gdb_cli_tools.Prelude.Parsed.{Parsed}
use gdb_cli_tools.Text.{trim}
use gdb_cli_tools.Task.Env.{lines_of}
use gdb_cli_tools.Task.Load.{pos, DebugTask}
use gdb_cli_tools.Gdb.Decimal.{to_string}
use gdb_cli_tools.Json.Value.{Json, Items, array, object, find, string_or}
use gdb_cli_tools.Json.Parse.{parse_json}
use gdb_cli_tools.Action.{ActionRequest}
use gdb_cli_tools.Action.Fields.{Numbers}
use gdb_cli_tools.Action.Kind
use gdb_cli_tools.Action.Parse.{or_text}
use gdb_cli_tools.Action.Result.{ActionResult, ActionOutput}
use gdb_cli_tools.Replay.Policy.{policy_continue, normalize_replay_failure_policy}
use gdb_cli_tools.Replay.Validate.{replay_plan_schema}
use gdb_cli_tools.Replay.Run.{Session, ReplayActionStep, source, replay_action_step}
use gdb_cli_tools.Replay.Run.Plan.{
  ReplayRunResult, LoopState, default_id, push_result, skip_step, replay_items,
}
use gdb_cli_tools.Replay.Run.Report.{run_evidence_text, replay_result_action}

-- replay_action_display_name of src/replay/replay_plan.cpp.
unfoldable pub replay_action_display_name : {N : Type 0} → Json N → ℕ → Bytes
unfolding string_or to_string
replay_action_display_name action index =
    or_text (string_or action (codes "name") [])
      (or_text (string_or action (codes "action") []) (codes "step-" ++ to_string index))

-- What stands under the path: nothing that can be read, an artifact with its plan, or a text.
pub data ReplayFile (N : Type 0) : Type 0 where
  unreadable : ReplayFile N
  artifact : Json N → ReplayFile N
  content : Bytes → ReplayFile N

-- A line that is passed over: empty, or a comment.
abbrev pub no_action : Bytes → Bool
no_action [] = true
no_action (c ∷ s) = c == b'#'

module _ {N : Type 0} (from_chars : Bytes → Option N) where
  -- parse_json; `none` is its exception.
  unfoldable pub read_json : Bytes → Option (Json N)
  unfolding parse_json
  read_json s = elim (parse_json from_chars s) [ Parsed.ok v ↦ some v | _ ↦ none ]

  -- A line's action; `none` is an exception, of parse_json or for a value that is no object.
  unfoldable pub line_action : Bytes → Option (Json N)
  unfolding read_json
  line_action line = elim (read_json line) [
    | some v ↦ elim v [ object m ↦ some (object m) | _ ↦ none ]
    | none ↦ none
  ]

  module _ (parse : Json N → ActionRequest) where
    abbrev pub cons_action :
        Option (Json N) → Option (List ActionRequest) → Option (List ActionRequest)
    cons_action (some action) (some actions) = some (parse action ∷ actions)
    cons_action _ _ = none

    unfoldable pub load_replay_jsonl_actions : List Bytes → Option (List ActionRequest)
    unfolding trim line_action
    load_replay_jsonl_actions [] = some []
    load_replay_jsonl_actions (raw ∷ lines) =
        let rest = load_replay_jsonl_actions lines in
        if no_action (trim raw) then rest else cons_action (line_action (trim raw)) rest

    module _ {W : Type 0} (session : Session W) (numbers : Numbers N) (print : N → Bytes)
        (stem file : Bytes) where
      -- A step of a file that is no plan.
      abbrev pub plain_step : ℕ → Bytes → Bytes → ReplayActionStep
      plain_step index name policy = record {
        index = index;
        step_id = default_id index;
        name = name;
        failure_policy = policy;
      }

      unfoldable pub action_line : ℕ → Bytes → Json N → LoopState W → LoopState W
      unfolding push_result replay_action_step replay_action_display_name
      action_line index policy action loop = push_result loop (
          replay_action_step session numbers print stem
            (plain_step index (replay_action_display_name action index) policy) (parse action)
            loop.world)

      -- The loop over the lines; `false` is an exception.
      unfoldable pub line_step :
          ℕ → Bytes → Option Bytes → Option (Json N) → LoopState W → LoopState W × Bool
      unfolding action_line skip_step
      line_step index policy (some reason) action loop = (
        skip_step session numbers print parse stem policy
            (plain_step index (codes "unknown") policy) reason loop,
        true,
      )
      line_step index policy none (some action) loop = (action_line index policy action loop, true)
      line_step index policy none none loop = (loop, false)

      unfoldable pub lines_loop : ℕ → Bytes → List Bytes → LoopState W → LoopState W × Bool
      unfolding trim line_action line_step
      lines_loop index policy [] loop = (loop, true)
      lines_loop index policy (raw ∷ lines) loop =
          let pass = lines_loop index policy lines loop in
          let r = line_step (index + 1) policy loop.stop (line_action (trim raw)) loop in
          let more = lines_loop (index + 1) policy lines r.0 in
          if no_action (trim raw) then pass else if r.1 then more else (r.0, false)

      abbrev pub first_state : W → LoopState W
      first_state w = record { world = w; prelude = []; ok = true; steps = []; stop = none }

      -- The result that the function begins with.
      abbrev pub first_result : Bool → Bytes → ReplayRunResult
      first_result force policy = record {
        ok = true;
        force = force;
        task_metadata_match = true;
        plan_name = stem;
        schema = replay_plan_schema;
        schema_version = pos 1;
        failure_policy = policy;
        warning = [];
        warning_evidence_id = [];
        error = [];
        error_evidence_id = [];
        run_evidence_id = [];
        steps = [];
      }

      -- add_replay_run_evidence, and the output.
      unfoldable pub finish_replay :
          W → List ActionResult → ReplayRunResult → W × Option ActionOutput
      unfolding run_evidence_text replay_result_action
      finish_replay w prelude result =
          let (w₁, id) =
            session.add_text
              (source (codes "ReplayRun") (codes "Replay plan " ++ result.plan_name)
                result.plan_name)
              (run_evidence_text file result) w in
          (
            w₁,
            some (record {
              prelude = prelude;
              final = replay_result_action file (record result { run_evidence_id = id });
            }),
          )

      unfoldable pub finish_loop : Bool → Bytes → LoopState W × Bool → W × Option ActionOutput
      unfolding finish_replay
      finish_loop force policy (loop, false) = (loop.world, none)
      finish_loop force policy (loop, true) =
          finish_replay loop.world loop.prelude
            (record (first_result force policy) { ok = loop.ok; steps = loop.steps })

      -- A plan's actions, `none` where they are no array.
      unfoldable pub actions_of : Json N → Option (Items N)
      unfolding find
      actions_of plan = elim (find plan (codes "actions")) [
        | some actions ↦ elim actions [ array items ↦ some items | _ ↦ none ]
        | none ↦ none
      ]

      unfoldable pub replay_plan_items :
          Option DebugTask → Bool → Bytes → Json N → Items N → W → W × Option ActionOutput
      unfolding replay_items finish_replay
      replay_plan_items task force override plan items w =
          let (w₁, (prelude, result)) =
            replay_items session numbers print parse stem file plan items task force override []
              w in
          finish_replay w₁ prelude result

      unfoldable pub replay_artifact :
          Option DebugTask → Bool → Bytes → Json N → W → W × Option ActionOutput
      unfolding actions_of replay_plan_items
      replay_artifact task force override plan w = elim (actions_of plan) [
        | some items ↦ replay_plan_items task force override plan items w
        | none ↦ (w, none)
      ]

      unfoldable pub replay_object :
          Option DebugTask → Bool → Bytes → Json N → W → W × Option ActionOutput
      unfolding actions_of replay_plan_items action_line finish_loop normalize_replay_failure_policy
      replay_object task force override plan w =
          let policy = normalize_replay_failure_policy override policy_continue in
          elim (actions_of plan) [
            | some items ↦ replay_plan_items task force override plan items w
            | none ↦ finish_loop force policy (action_line 1 policy plan (first_state w), true)
          ]

      unfoldable pub replay_json :
          Option DebugTask → Bool → Bytes → Option (Json N) → W → W × Option ActionOutput
      unfolding replay_object
      replay_json task force override (some json) w = replay_object task force override json w
      replay_json task force override none w = (w, none)

      unfoldable pub replay_content :
          Option DebugTask → Bool → Bytes → Bytes → W → W × Option ActionOutput
      unfolding finish_replay read_json replay_json lines_loop lines_of finish_loop
          normalize_replay_failure_policy
      replay_content task force override [] w =
          finish_replay w [] (first_result force policy_continue)
      replay_content task force override (c ∷ s) w =
          let plan = replay_json task force override (read_json (c ∷ s)) w in
          let policy = normalize_replay_failure_policy override policy_continue in
          let lines =
            finish_loop force policy (lines_loop 0 policy (lines_of (c ∷ s)) (first_state w)) in
          if c == b'{' then plan else lines

      -- `none` is an exception, with what the replay did until then.
      unfoldable pub replay_action_file :
          ReplayFile N → Option DebugTask → Bool → Bytes → W → W × Option ActionOutput
      unfolding trim replay_artifact replay_content
      replay_action_file unreadable task force override w = (w, none)
      replay_action_file (artifact plan) task force override w =
          replay_artifact task force override plan w
      replay_action_file (content s) task force override w =
          replay_content task force override (trim s) w
