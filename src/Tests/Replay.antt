-- ===== src/Tests/Replay.antt =====
-- Examples for replay plans. A number is a natural number, and an int where a replay is run.
use gdb_cli_tools.Prelude.{
  ℕ, ◌+◌, ◌≤◌, ◌≡◌, refl, true, false, not, Option, none, some, [], ◌∷◌, ◌++◌, length, is_empty,
  Bytes, codes, newline,
}
use gdb_cli_tools.Prelude.Parsed.{skip_space}
use gdb_cli_tools.Text.{trim}
use gdb_cli_tools.Json.Value.{
  Json, Items, array, string, number, object, no_members, member, no_items, item,
}
use gdb_cli_tools.Json.Dump.{dump_json}
use gdb_cli_tools.Json.Dump.Scalars.{IsReadable}
use gdb_cli_tools.Action.{ActionRequest, request, no_payload}
use gdb_cli_tools.Action.Kind
use gdb_cli_tools.Action.Fields.{Numbers}
use gdb_cli_tools.Action.Export.{is_positive, same_int}
use gdb_cli_tools.Action.Result.{success}
use gdb_cli_tools.Task.Load.{DebugTask, ℤ, pos}
use gdb_cli_tools.Replay.Fingerprint.{summarize_problem}
use gdb_cli_tools.Replay.Fingerprint.Shape.{is_compact, summarize_problem-is_compact}
use gdb_cli_tools.Replay.Policy.{policy_continue, replay_failure_policy_valid}
use gdb_cli_tools.Replay.Validate.{validate_replay_plan}
use gdb_cli_tools.Replay.Validate.Laws.{IsSound, is_for_other_task, validate_replay_plan-IsSound}
use gdb_cli_tools.Replay.Run.{ReplayStepRunResult, step_failed, Session, Executed, returned, thrown}
use gdb_cli_tools.Replay.Run.Plan.{item_step, LoopState, steps_loop, replay_items}
use gdb_cli_tools.Replay.Run.Plan.Laws.{IsReplayOf, replay_items_lem}
use gdb_cli_tools.Replay.Run.Plan.Stop.{OnlySkips, last_result, with_execute, steps_loop-stopped}
use gdb_cli_tools.Replay.Run.File.{content, replay_action_file}
use gdb_cli_tools.Replay.Run.File.Laws.{replay_action_file_lines}

abbrev problem : Bytes
problem = codes " It\n\n crashes  " ++ 9 ∷ codes "at once "

summarize_problem-is_compact_example :
    (length (summarize_problem problem) ≤ 160)
    × (is_compact false (summarize_problem problem) ≡ true)
summarize_problem-is_compact_example = summarize_problem-is_compact problem

abbrev plan : Json ℕ
plan = object (
    member (codes "schema") (string (codes "gdb-agent-replay-plan-v1")) (
      member (codes "schema_version") (number 1) (
        member (codes "task")
          (object (member (codes "fingerprint") (string (codes "fnv1a64:0")) no_members))
          no_members)))

abbrev loaded : DebugTask
loaded = record {
  problem = problem;
  executable = codes "/w/app";
  working_directory = codes "/w";
  args_raw = [];
  args = [];
  stdin_path = codes "/dev/null";
  env = [];
  run_timeout_ms = 30000;
  core_dump = none;
}

validate_replay_plan-IsSound_example :
    IsSound true
      (is_for_other_task plan (some loaded))
      (validate_replay_plan pos plan (some loaded) true)
validate_replay_plan-IsSound_example = validate_replay_plan-IsSound pos plan (some loaded) true

abbrev ints : Numbers ℤ
ints = record {
  to_int = λ z. z;
  of_int = λ z. z;
  to_long = λ z. z;
  of_long = λ z. z;
  equal = same_int;
  at_most_zero = λ z. not (is_positive z);
}

-- A session that is gone: every action throws, and the world counts the evidence.
abbrev dead_session : Session ℕ
dead_session = record {
  execute = λ action w. (w, thrown (codes "no session"));
  add_text = λ source text w. (w + 1, codes "E0001");
}

abbrev live_execute : ActionRequest → ℕ → ℕ × Executed
live_execute action w =
    (w, returned (record { prelude = []; final = success Kind.unknown (codes "unknown") }))

abbrev unknown_action : Json ℤ → ActionRequest
unknown_action json = request Kind.unknown [] no_payload

-- Two steps, the first of which fails under stop_on_error.
abbrev two_steps : Items ℤ
two_steps =
    item
      (object (
        member (codes "action") (object no_members)
          (member (codes "failure_policy") (string (codes "stop_on_error")) no_members)))
      (item (object (member (codes "action") (object no_members) no_members)) no_items)

abbrev step_plan : Json ℤ
step_plan = object (member (codes "actions") (array two_steps) no_members)

abbrev no_text : ℤ → Bytes
no_text z = []

step_plan-ok : (validate_replay_plan ints.to_int step_plan none true).ok ≡ true
unfolding validate_replay_plan
step_plan-ok = refl

replay_items_lem_example :
    IsReplayOf two_steps
      (replay_items dead_session ints no_text unknown_action
        (codes "run")
        (codes "run.json")
        step_plan
        two_steps
        none
        true
        []
        []
        0).1.1
replay_items_lem_example =
    replay_items_lem dead_session ints no_text unknown_action (codes "run") (codes "run.json")
      step_plan two_steps none true [] [] 0 step_plan-ok

abbrev stop_step : Json ℤ
stop_step = object (
    member (codes "action") (object no_members)
      (member (codes "failure_policy") (string (codes "stop_on_error")) no_members))

abbrev rest_steps : Items ℤ
rest_steps = item (object (member (codes "action") (object no_members) no_members)) no_items

abbrev first_loop : LoopState ℕ
first_loop = record { world = 0; prelude = []; ok = true; steps = []; stop = none }

abbrev failed_result : ReplayStepRunResult
failed_result = record {
  index = 1;
  step_id = codes "a1";
  action_name = codes "unknown";
  status = step_failed;
  failure_policy = codes "stop_on_error";
  evidence_id = codes "E0001";
  error_evidence_id = codes "E0001";
  action_evidence_id = [];
  error = codes "no session";
  skip_reason = [];
}

abbrev behind_stop : LoopState ℕ
behind_stop =
    item_step dead_session ints no_text unknown_action (codes "run") policy_continue 1 stop_step
      first_loop

behind_stop-last : last_result behind_stop.steps ≡ some failed_result
unfolding item_step last_result replay_failure_policy_valid
behind_stop-last = refl

steps_loop-stopped_example :
    let final =
      steps_loop dead_session ints no_text unknown_action
        (codes "run")
        policy_continue
        0
        (item stop_step rest_steps)
        first_loop in
    (final
      ≡ steps_loop
          (with_execute dead_session live_execute)
          ints
          no_text
          unknown_action
          (codes "run")
          policy_continue
          1
          rest_steps
          behind_stop)
    × OnlySkips 1 behind_stop final
steps_loop-stopped_example =
    steps_loop-stopped ints no_text unknown_action (codes "run") policy_continue dead_session
      live_execute 0 stop_step rest_steps first_loop failed_result behind_stop-last refl refl

abbrev no_number : Bytes → Option ℤ
no_number s = none

abbrev second_line : Bytes
second_line = codes "{}"

-- A file of two actions, each on its line.
abbrev line_file : Bytes
line_file = codes "{}" ++ newline ∷ codes "{}" ++ newline ∷ []

empty-IsReadable : IsReadable no_number no_text (object no_members)
unfolding IsReadable
empty-IsReadable = (tt, tt)

line_file-trim : trim line_file ≡ dump_json no_text (object no_members) ++ newline ∷ second_line
unfolding trim dump_json
line_file-trim = refl

second_line-more : is_empty (skip_space second_line) ≡ false
second_line-more = refl

replay_action_file_lines_example :
    replay_action_file no_number unknown_action dead_session ints no_text
      (codes "run")
      (codes "run.json")
      (content line_file)
      none
      false
      []
      0
    ≡ (0, none)
replay_action_file_lines_example =
    replay_action_file_lines no_number unknown_action dead_session ints no_text (codes "run")
      (codes "run.json") no_members second_line line_file none false [] 0 empty-IsReadable
      second_line-more line_file-trim
