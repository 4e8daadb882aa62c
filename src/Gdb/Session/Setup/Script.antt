-- ===== src/Gdb/Session/Setup/Script.antt =====
-- The commands of initialize of src/gdb/gdb_session.cpp, written as one list.
use gdb_cli_tools.Prelude.{
  ◌≡◌, refl, ap, List, [], ◌∷◌, ◌++◌, map, is_empty, if◌then◌else◌, Bytes, codes,
}
use gdb_cli_tools.Text.Template.Parts.{concat_parts}
use gdb_cli_tools.Mi.Escape.{mi_quote}
use gdb_cli_tools.Task.Load.{DebugTask}
use gdb_cli_tools.Gdb.Session.Setup.{env_commands, quoted_args, args_commands, initialize_commands}

-- What a new session is told: its settings, the directory, the environment, the program with its
-- symbols, and the arguments of the program where it has some.
abbrev pub setup_script : DebugTask → List Bytes
setup_script task =
    map (λ setting. codes "-gdb-set " ++ setting)
      (codes "pagination off"
        ∷ codes "confirm off"
        ∷ codes "print pretty on"
        ∷ codes "print object on"
        ∷ codes "print elements 200"
        ∷ codes "print max-depth 4"
        ∷ codes "print repeats 10"
        ∷ [])
    ++ ((codes "-environment-cd " ++ mi_quote task.working_directory)
        ∷ (map (λ e. codes "-gdb-set environment " ++ (e.0 ++ (codes " " ++ e.1))) task.env
            ++ ((codes "-file-exec-and-symbols " ++ mi_quote task.executable)
                ∷ (if is_empty task.args
                    then []
                    else (codes "-exec-arguments"
                        ++ concat_parts (map (λ arg. codes " " ++ mi_quote arg) task.args))
                      ∷ []))))

env_commands-map :
    (env : List (Bytes × Bytes))
    → env_commands env ≡ map (λ e. codes "-gdb-set environment " ++ (e.0 ++ (codes " " ++ e.1))) env
unfolding env_commands
env_commands-map [] = refl
env_commands-map ((key, value) ∷ env) =
    ap (λ l. (codes "-gdb-set environment " ++ (key ++ 32 ∷ value)) ∷ l) (env_commands-map env)

quoted_args-concat_parts :
    (args : List Bytes)
    → quoted_args args ≡ concat_parts (map (λ arg. codes " " ++ mi_quote arg) args)
unfolding quoted_args
quoted_args-concat_parts [] = refl
quoted_args-concat_parts (arg ∷ args) =
    ap (λ l. 32 ∷ (mi_quote arg ++ l)) (quoted_args-concat_parts args)

args_commands-if :
    (args : List Bytes)
    → args_commands args ≡ (
        if is_empty args
        then []
        else (codes "-exec-arguments" ++ concat_parts (map (λ arg. codes " " ++ mi_quote arg) args))
          ∷ [])
unfolding args_commands
args_commands-if [] = refl
args_commands-if (arg ∷ args) =
    ap (λ l. (codes "-exec-arguments" ++ l) ∷ []) (quoted_args-concat_parts (arg ∷ args))

pub initialize_commands-setup_script :
    (task : DebugTask) → initialize_commands task ≡ setup_script task
unfolding initialize_commands
initialize_commands-setup_script task =
    rw (env_commands-map task.env, args_commands-if task.args) refl
