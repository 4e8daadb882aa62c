-- ===== src/Replay/Validate.antt =====
-- validate_replay_plan of src/replay/replay_plan.cpp. `to_int` is the cast of a double to int.
pub mod Laws
use gdb_cli_tools.Prelude.{
  ◌+◌, Bool, true, false, not, ◌&&◌, Option, none, some, [], ◌∷◌, ◌++◌, ◌==◌, if◌then◌else◌,
  is_empty, Bytes, codes, same,
}
use gdb_cli_tools.Json.Value.{Json, null, bool, number, string, array, object, find, string_or}
use gdb_cli_tools.Gdb.Decimal.{to_string}
use gdb_cli_tools.Task.Load.{ℤ, pos, negsuc, DebugTask}
use gdb_cli_tools.Replay.Fingerprint.{replay_task_fingerprint}

pub record ReplayPlanValidation : Type 0 where
  pub ok : Bool
  pub task_metadata_available : Bool
  pub task_metadata_match : Bool
  pub schema : Bytes
  pub schema_version : ℤ
  pub plan_fingerprint : Bytes
  pub current_fingerprint : Bytes
  pub warning : Bytes
  pub error : Bytes

abbrev pub replay_plan_schema : Bytes
replay_plan_schema = codes "gdb-agent-replay-plan-v1"

abbrev pub initial : Bytes → ReplayPlanValidation
initial schema = record {
  ok = true;
  task_metadata_available = false;
  task_metadata_match = true;
  schema = schema;
  schema_version = pos 1;
  plan_fingerprint = [];
  current_fingerprint = [];
  warning = [];
  error = [];
}

unfoldable pub add_warning : Bytes → ReplayPlanValidation → ReplayPlanValidation
add_warning text r = record r {
  warning = (if is_empty r.warning then [] else r.warning ++ codes "; ") ++ text;
}

-- std::to_string of an int.
unfoldable pub int_text : ℤ → Bytes
unfolding to_string
int_text (pos n) = to_string n
int_text (negsuc n) = b'-' ∷ to_string (n + 1)

abbrev pub is_one : ℤ → Bool
is_one (pos n) = n == 1
is_one (negsuc n) = false

unfoldable pub bad_schema : ReplayPlanValidation → ReplayPlanValidation
bad_schema r = record r { ok = false; error = codes "unsupported replay plan schema: " ++ r.schema }

unfoldable pub mismatch_text : ReplayPlanValidation → Bytes
mismatch_text r =
    codes "replay plan task fingerprint mismatch: plan="
    ++ (r.plan_fingerprint ++ (codes " current=" ++ r.current_fingerprint))

unfoldable pub compare_fingerprints : Bool → ReplayPlanValidation → ReplayPlanValidation
unfolding mismatch_text add_warning
compare_fingerprints force r =
    let r' = record r { task_metadata_match = same r.plan_fingerprint r.current_fingerprint } in
    if same r.plan_fingerprint r.current_fingerprint
    then r'
    else if not force
    then record r' { ok = false; error = mismatch_text r' }
    else add_warning (codes "force replay accepted despite " ++ mismatch_text r') r'

unfoldable pub check_current : Option DebugTask → Bool → ReplayPlanValidation → ReplayPlanValidation
unfolding compare_fingerprints replay_task_fingerprint add_warning
check_current none force r =
    add_warning (codes "current task is unavailable; task match could not be verified") r
check_current (some task) force r =
    compare_fingerprints force (record r { current_fingerprint = replay_task_fingerprint task })

unfoldable pub check_fingerprint :
    Option DebugTask → Bool → ReplayPlanValidation → ReplayPlanValidation
unfolding check_current add_warning
check_fingerprint task force r =
    if is_empty r.plan_fingerprint
    then add_warning
        (codes "replay plan task metadata has no fingerprint; task match could not be verified") r
    else check_current task force r

module _ {N : Type 0} (to_int : N → ℤ) where
  unfoldable pub version_of : Option (Json N) → ℤ
  version_of (some (number x)) = to_int x
  version_of _ = pos 1

  unfoldable pub no_metadata : ReplayPlanValidation → ReplayPlanValidation
  unfolding add_warning
  no_metadata r =
      add_warning (codes "replay plan has no task metadata; task match could not be verified") r

  unfoldable pub not_object : ReplayPlanValidation → ReplayPlanValidation
  not_object r = record r {
    ok = false;
    error = codes "replay plan task metadata must be an object or null";
  }

  unfoldable pub check_task :
      Option (Json N) → Option DebugTask → Bool → ReplayPlanValidation → ReplayPlanValidation
  unfolding no_metadata not_object check_fingerprint string_or
  check_task none task force r = no_metadata r
  check_task (some null) task force r = no_metadata r
  check_task (some (bool b)) task force r = not_object r
  check_task (some (number x)) task force r = not_object r
  check_task (some (string s)) task force r = not_object r
  check_task (some (array xs)) task force r = not_object r
  check_task (some (object m)) task force r = check_fingerprint task force (record r {
    task_metadata_available = true;
    plan_fingerprint = string_or (object m) (codes "fingerprint") [];
  })

  unfoldable pub bad_version : ReplayPlanValidation → ReplayPlanValidation
  unfolding int_text
  bad_version r = record r {
    ok = false;
    error = codes "unsupported replay plan schema_version: " ++ int_text r.schema_version;
  }

  unfoldable pub check_version :
      Json N → Option DebugTask → Bool → ReplayPlanValidation → ReplayPlanValidation
  unfolding version_of bad_version check_task find
  check_version plan task force r =
      let r' = record r { schema_version = version_of (find plan (codes "schema_version")) } in
      if not (is_one r'.schema_version)
      then bad_version r'
      else check_task (find plan (codes "task")) task force r'

  unfoldable pub validate_replay_plan : Json N → Option DebugTask → Bool → ReplayPlanValidation
  unfolding string_or check_version bad_schema
  validate_replay_plan plan task force =
      let schema = string_or plan (codes "schema") [] in
      let r = initial schema in
      if not (is_empty schema) && not (same schema replay_plan_schema)
      then bad_schema r
      else check_version plan task force (
          if is_empty schema
          then record r {
            warning =
                codes
                  "legacy replay plan has no schema; defaulting to gdb-agent-replay-plan-v1 compatibility";
          }
          else r)
