-- ===== src/Task/Load.antt =====
-- load_task and validate_task of src/task/debug_task.cpp. `resolve` stands for std::filesystem: it
-- makes a path that is not empty absolute and canonical, from a base. `stoi` stands for std::stoi,
-- `none` where it throws. `exists` and `is_directory` are questions to the file system.
pub mod Laws
use gdb_cli_tools.Prelude.{
  ℕ, zero, suc, Bool, false, not, ◌&&◌, ◌||◌, Option, none, some, List, [], if◌then◌else◌, is_empty,
  Bytes, codes,
}
use gdb_cli_tools.Text.{trim}
use gdb_cli_tools.Task.Args.{parse_shell_like_args}
use gdb_cli_tools.Task.Env.{TextMap, lookup, parse_env_lines}
use gdb_cli_tools.Task.Fields.{parse_markdown_fields}

-- An int of the machine.
pub data ℤ : Type 0 where
  pos : ℕ → ℤ
  negsuc : ℕ → ℤ

pub record DebugTask : Type 0 where
  pub problem : Bytes
  pub executable : Bytes
  pub working_directory : Bytes
  pub args_raw : Bytes
  pub args : List Bytes
  pub stdin_path : Bytes
  pub env : TextMap
  pub run_timeout_ms : ℕ
  pub core_dump : Option Bytes

-- fields[key], a missing key being the empty text; std::map::contains and the test for a field that
-- is there and not blank.
abbrev pub field_of : Bytes → TextMap → Bytes
field_of key fields = elim (lookup key fields) [ none ↦ [] | some value ↦ value ]

abbrev pub has_field : Bytes → TextMap → Bool
has_field key fields = not (is_empty (trim (field_of key fields)))

unfoldable pub positive : Option ℤ → Option ℕ
positive none = none
positive (some (pos zero)) = none
positive (some (pos (suc n))) = some (suc n)
positive (some (negsuc n)) = none

unfoldable pub optional_env : TextMap → Option TextMap
unfolding parse_env_lines trim lookup
optional_env fields =
    if has_field (codes "env") fields
    then parse_env_lines (field_of (codes "env") fields)
    else some []

unfoldable pub required_fields : TextMap → Bool
unfolding trim lookup
required_fields fields =
    has_field (codes "problem") fields
    && (has_field (codes "executable") fields && has_field (codes "working directory") fields)

module _ (stoi : Bytes → Option ℤ) where
  unfoldable pub parse_positive_int : Bytes → Option ℕ
  unfolding trim positive
  parse_positive_int value = positive (stoi (trim value))

  unfoldable pub optional_timeout : TextMap → Option ℕ
  unfolding parse_positive_int trim lookup
  optional_timeout fields =
      if has_field (codes "run timeout") fields
      then parse_positive_int (field_of (codes "run timeout") fields)
      else some 30000

module _ (resolve : Bytes → Bytes → Bytes) where
  unfoldable pub absolute_from : Bytes → Bytes → Bytes
  unfolding trim
  absolute_from base value = if is_empty (trim value) then [] else resolve base (trim value)

  -- The task, once its arguments, environment and timeout are parsed; an exception there is `none`.
  unfoldable pub build_task :
      Bytes → TextMap → Option (List Bytes) → Option TextMap → Option ℕ → Option DebugTask
  unfolding absolute_from trim lookup
  build_task task_base fields (some args) (some env) (some timeout) =
      let working = absolute_from task_base (field_of (codes "working directory") fields) in
      some (record {
        problem = field_of (codes "problem") fields;
        executable = absolute_from working (field_of (codes "executable") fields);
        working_directory = working;
        args_raw = trim (field_of (codes "args") fields);
        args = args;
        stdin_path =
            if has_field (codes "stdin") fields
            then absolute_from working (field_of (codes "stdin") fields)
            else codes "/dev/null";
        env = env;
        run_timeout_ms = timeout;
        core_dump =
            if has_field (codes "core dump") fields
            then some (absolute_from working (field_of (codes "core dump") fields))
            else none;
      })
  build_task task_base fields _ _ _ = none

module _ (resolve : Bytes → Bytes → Bytes) (stoi : Bytes → Option ℤ) where
  unfoldable pub task_of_fields : Bytes → TextMap → Option DebugTask
  unfolding required_fields build_task optional_env optional_timeout parse_shell_like_args
  task_of_fields task_base fields =
      if required_fields fields
      then build_task resolve task_base fields
          (parse_shell_like_args (trim (field_of (codes "args") fields))) (optional_env fields)
          (optional_timeout stoi fields)
      else none

  unfoldable pub load_task : Bytes → Bytes → Option DebugTask
  unfolding parse_markdown_fields task_of_fields
  load_task task_base text = task_of_fields task_base (parse_markdown_fields text)

-- true: no exception.
unfoldable pub validate_task : (Bytes → Bool) → (Bytes → Bool) → DebugTask → Bool
validate_task exists is_directory task =
    if not (exists task.working_directory) || not (is_directory task.working_directory)
    then false
    else if not (exists task.executable)
    then false
    else if elim task.core_dump [ none ↦ false | some path ↦ not (exists path) ]
    then false
    else exists task.stdin_path
