-- ===== src/Task/Load/Laws.antt =====
-- What a loaded task holds.
use gdb_cli_tools.Prelude.{
  Bool, false, not, ◌&&◌, is_empty, ℕ, zero, suc, ◌<◌, ◌≡◌, refl, subst, inl, inr, true, Option,
  none, some, List, arith, Bool-cases, Bytes, codes,
}
use mathlib.Core.Option.{some-injective}
use gdb_cli_tools.Text.{trim}
use gdb_cli_tools.Task.Args.{parse_shell_like_args}
use gdb_cli_tools.Task.Env.{TextMap}
use gdb_cli_tools.Task.Fields.{parse_markdown_fields}
use gdb_cli_tools.Task.Load.{
  ℤ, pos, negsuc, DebugTask, field_of, has_field, positive, parse_positive_int, optional_timeout,
  required_fields, build_task, task_of_fields, load_task,
}

positive_lem : (o : Option ℤ) (n : ℕ) → positive o ≡ some n → 0 < n
unfolding positive
positive_lem none n e = absurd (cc)
positive_lem (some (pos zero)) n e = absurd (cc)
positive_lem (some (pos (suc m))) n e = omega (arith, some-injective _ _ e)
positive_lem (some (negsuc m)) n e = absurd (cc)

required_fields_lem :
    (fields : TextMap)
    → required_fields fields ≡ true
    → (is_empty (trim (field_of (codes "problem") fields)) ≡ false)
      × ((is_empty (trim (field_of (codes "executable") fields)) ≡ false)
          × (is_empty (trim (field_of (codes "working directory") fields)) ≡ false))
unfolding required_fields
required_fields_lem fields r =
    all_full (is_empty (trim (field_of (codes "problem") fields)))
      (is_empty (trim (field_of (codes "executable") fields)))
      (is_empty (trim (field_of (codes "working directory") fields))) r
  where
    all_full :
        (a b c : Bool)
        → (not a && (not b && not c)) ≡ true
        → (a ≡ false) × ((b ≡ false) × (c ≡ false))
    all_full false false false h = (refl, (refl, refl))
    all_full true b c h = cc
    all_full false true c h = cc
    all_full false false true h = cc

-- What is known of a task that was loaded from the fields.
pub record IsLoaded (fields : TextMap) (task : DebugTask) : Type 0 where
  pub has_problem : is_empty (trim (field_of (codes "problem") fields)) ≡ false
  pub has_executable : is_empty (trim (field_of (codes "executable") fields)) ≡ false
  pub has_working_directory : is_empty (trim (field_of (codes "working directory") fields)) ≡ false
  pub problem : task.problem ≡ field_of (codes "problem") fields
  pub args : parse_shell_like_args task.args_raw ≡ some task.args
  pub timeout : 0 < task.run_timeout_ms

module _ (resolve : Bytes → Bytes → Bytes) (stoi : Bytes → Option ℤ) where
  optional_timeout_lem : (fields : TextMap) (n : ℕ) → optional_timeout stoi fields ≡ some n → 0 < n
  unfolding optional_timeout parse_positive_int
  optional_timeout_lem fields n e = elim (Bool-cases (has_field (codes "run timeout") fields)) [
    | inl h ↦ positive_lem _ n (rw h at e)
    | inr h ↦ omega (arith, some-injective _ _ (rw h at e))
  ]

  build_task_lem :
      (task_base : Bytes) (fields : TextMap) (args : Option (List Bytes)) (env : Option TextMap)
      (timeout : Option ℕ) {task : DebugTask}
      → required_fields fields ≡ true
      → parse_shell_like_args (trim (field_of (codes "args") fields)) ≡ args
      → ((n : ℕ) → timeout ≡ some n → 0 < n)
      → build_task resolve task_base fields args env timeout ≡ some task
      → IsLoaded fields task
  unfolding build_task
  build_task_lem task_base fields none env timeout r a t e = absurd (cc)
  build_task_lem task_base fields (some args) none timeout r a t e = absurd (cc)
  build_task_lem task_base fields (some args) (some env) none r a t e = absurd (cc)
  build_task_lem task_base fields (some args) (some env) (some n) r a t e =
      subst (IsLoaded fields) (some-injective _ _ e) (record {
        has_problem = (required_fields_lem fields r).0;
        has_executable = (required_fields_lem fields r).1.0;
        has_working_directory = (required_fields_lem fields r).1.1;
        problem = refl;
        args = a;
        timeout = t n refl;
      })

  -- A task that load_task returns comes from a text in which each of the fields problem, executable
  -- and working directory stands and is not blank; it has the problem as it stands in the
  -- file, the arguments that its raw argument line parses to, and a positive timeout.
  pub load_task-IsLoaded :
      (task_base text : Bytes) {task : DebugTask}
      → load_task resolve stoi task_base text ≡ some task
      → IsLoaded (parse_markdown_fields text) task
  unfolding load_task task_of_fields
  load_task-IsLoaded task_base text e =
      let fields = parse_markdown_fields text in
      elim (Bool-cases (required_fields fields)) [
        | inl r ↦
            build_task_lem task_base fields _ _ _ r refl (optional_timeout_lem fields) (rw r at e)
        | inr r ↦ cc (rw r at e)
      ]
