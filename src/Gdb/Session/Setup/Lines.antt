-- ===== src/Gdb/Session/Setup/Lines.antt =====
-- The text of the commands of initialize of src/gdb/gdb_session.cpp.
use gdb_cli_tools.Prelude.{
  ℕ, ◌≡◌, refl, false, List, [], ◌∷◌, ◌++◌, arith, All, All-append, Bytes, codes, quote_mark,
  newline, has_char,
}
use gdb_cli_tools.Mi.Escape.{quote_byte, mi_quote_body, mi_quote}
use gdb_cli_tools.Task.Load.{DebugTask}
use gdb_cli_tools.Gdb.Session.Setup.{
  env_commands, quoted_args, args_commands, settings, initialize_commands,
}

abbrev pub OneLine : Bytes → Type 0
OneLine s = has_char newline s ≡ false

abbrev pub EntryLine : Bytes × Bytes → Type 0
EntryLine (key, value) = OneLine key × OneLine value

append-OneLine : (s t : Bytes) → OneLine s → OneLine t → OneLine (s ++ t)
append-OneLine [] t h k = k
append-OneLine (c ∷ s) t h k = ground (arith, append-OneLine s t)

quote_byte-OneLine : (c : ℕ) → OneLine (quote_byte c)
unfolding quote_byte
quote_byte-OneLine c = ground arith

mi_quote_body-OneLine : (s : Bytes) → OneLine (mi_quote_body s)
unfolding mi_quote_body
mi_quote_body-OneLine [] = refl
mi_quote_body-OneLine (c ∷ s) =
    append-OneLine (quote_byte c) (mi_quote_body s) (quote_byte-OneLine c) (mi_quote_body-OneLine s)

mi_quote-OneLine : (s : Bytes) → OneLine (mi_quote s)
unfolding mi_quote
mi_quote-OneLine s =
    append-OneLine (mi_quote_body s) (quote_mark ∷ []) (mi_quote_body-OneLine s) refl

quoted_args-OneLine : (args : List Bytes) → OneLine (quoted_args args)
unfolding quoted_args
quoted_args-OneLine [] = refl
quoted_args-OneLine (arg ∷ args) =
    append-OneLine (mi_quote arg) (quoted_args args) (mi_quote-OneLine arg)
      (quoted_args-OneLine args)

args_commands-OneLine : (args : List Bytes) → All OneLine (args_commands args)
unfolding args_commands
args_commands-OneLine [] = tt
args_commands-OneLine (arg ∷ args) = (
  append-OneLine (codes "-exec-arguments") (quoted_args (arg ∷ args)) refl
      (quoted_args-OneLine (arg ∷ args)),
  tt,
)

env_commands-OneLine :
    (env : List (Bytes × Bytes)) → All EntryLine env → All OneLine (env_commands env)
unfolding env_commands
env_commands-OneLine [] h = tt
env_commands-OneLine ((key, value) ∷ env) ((k, v), hs) = (
  append-OneLine (codes "-gdb-set environment ") (key ++ 32 ∷ value) refl
      (append-OneLine key (32 ∷ value) k v),
  env_commands-OneLine env hs,
)

-- Every command of initialize is a single line, so that gdb reads it as one command, whatever bytes
-- the paths and the arguments of the task hold; the entries of the environment, which are not
-- quoted, must not hold a line feed.
pub initialize_commands-OneLine :
    (task : DebugTask) → All EntryLine task.env → All OneLine (initialize_commands task)
unfolding initialize_commands
initialize_commands-OneLine task h =
    let cd = codes "-environment-cd " ++ mi_quote task.working_directory in
    let file = codes "-file-exec-and-symbols " ++ mi_quote task.executable in
    let last = file ∷ args_commands task.args in
    All-append OneLine settings (cd ∷ (env_commands task.env ++ last))
      (refl, (refl, (refl, (refl, (refl, (refl, (refl, tt)))))))
      (
        append-OneLine (codes "-environment-cd ") (mi_quote task.working_directory) refl
            (mi_quote-OneLine task.working_directory),
        All-append OneLine (env_commands task.env) last (env_commands-OneLine task.env h) (
          append-OneLine (codes "-file-exec-and-symbols ") (mi_quote task.executable) refl
              (mi_quote-OneLine task.executable),
          args_commands-OneLine task.args,
        ),
      )
