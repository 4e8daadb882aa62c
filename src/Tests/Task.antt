-- ===== src/Tests/Task.antt =====
-- Examples for the task file.
use gdb_cli_tools.Prelude.{◌≡◌, refl, Option, none, some, List, [], ◌∷◌, ◌++◌, All, Bytes, codes}
use mathlib.Core.Option
use gdb_cli_tools.Text.{trim, lower, starts_with}
use gdb_cli_tools.Task.Env.{TextMap, lookup, parse_env_lines}
use gdb_cli_tools.Task.Env.Laws.{EntryOf, render_env, last_value, parse_env_lines-render_env}
use gdb_cli_tools.Task.Fields.{parse_markdown_fields}
use gdb_cli_tools.Task.Fields.Laws.{
  Section, IsSection, unlines, section_lines, last_field, parse_markdown_fields-unlines,
}
use gdb_cli_tools.Task.Load.{ℤ, DebugTask, load_task}
use gdb_cli_tools.Task.Load.Laws.{IsLoaded, load_task-IsLoaded}

abbrev entries : TextMap
entries = (codes "LANG", codes "C") ∷ (codes "A_1", codes "x = y") ∷ (codes "LANG", codes "de") ∷ []

entries-IsEntry : All EntryOf entries
entries-IsEntry = (
  record { named = refl; key_bytes = refl; one_line = refl; ends = refl },
  (
    record { named = refl; key_bytes = refl; one_line = refl; ends = refl },
    (record { named = refl; key_bytes = refl; one_line = refl; ends = refl }, tt),
  ),
)

parse_env_lines-render_env_example :
    Option.map (lookup (codes "LANG")) (parse_env_lines (render_env entries))
    ≡ some (last_value (codes "LANG") entries none)
parse_env_lines-render_env_example =
    parse_env_lines-render_env (codes "LANG") entries entries-IsEntry

abbrev sections : List Section
sections =
    (codes "Problem", codes "" ∷ codes "It crashes." ∷ [])
    ∷ (codes " Executable ", codes "a.out" ∷ [])
    ∷ (codes "Working Directory", codes "/tmp" ∷ [])
    ∷ (codes "args", codes "-x 'a b'" ∷ [])
    ∷ []

sections-IsSection : All IsSection sections
unfolding lower trim starts_with
sections-IsSection = (
  (refl, refl, ((refl, refl), ((refl, refl), tt))),
  (
    (refl, refl, ((refl, refl), tt)),
    ((refl, refl, ((refl, refl), tt)), ((refl, refl, ((refl, refl), tt)), tt)),
  ),
)

parse_markdown_fields-unlines_example :
    lookup (codes "executable") (parse_markdown_fields (unlines (section_lines sections)))
    ≡ last_field (codes "executable") sections none
parse_markdown_fields-unlines_example =
    parse_markdown_fields-unlines (codes "executable") sections sections-IsSection

abbrev below : Bytes → Bytes → Bytes
below base path = base ++ b'/' ∷ path

abbrev no_number : Bytes → Option ℤ
no_number s = none

abbrev loaded : DebugTask
loaded = record {
  problem = codes "It crashes.";
  executable = codes "/w//tmp/a.out";
  working_directory = codes "/w//tmp";
  args_raw = codes "-x 'a b'";
  args = codes "-x" ∷ codes "a b" ∷ [];
  stdin_path = codes "/dev/null";
  env = [];
  run_timeout_ms = 30000;
  core_dump = none;
}

load_task-IsLoaded_example :
    IsLoaded (parse_markdown_fields (unlines (section_lines sections))) loaded
unfolding load_task
load_task-IsLoaded_example =
    load_task-IsLoaded below no_number (codes "/w") (unlines (section_lines sections))
      {task = loaded} refl
