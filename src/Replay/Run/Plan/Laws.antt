-- ===== src/Replay/Run/Plan/Laws.antt =====
-- The results of the loop over a plan's steps.
use gdb_cli_tools.Prelude.{
  same, ℕ, suc, ◌+◌, ◌≡◌, refl, sym, ap, ◌∙◌, subst, inl, inr, Bool, true, false, not, ◌&&◌, Option,
  none, some, List, [], ◌∷◌, ◌++◌, arith, Bool-cases, if_both, length, length-append, every, Bytes,
  codes,
}
use gdb_cli_tools.Task.Load.{DebugTask}
use gdb_cli_tools.Json.Value.{
  Json, Items, null, bool, number, string, array, object, no_items, item, find, bool_or, string_or,
}
use gdb_cli_tools.Action.{ActionRequest}
use gdb_cli_tools.Action.Fields.{Numbers}
use gdb_cli_tools.Action.Result.{ActionResult}
use gdb_cli_tools.Replay.Validate.{ReplayPlanValidation, validate_replay_plan}
use gdb_cli_tools.Replay.Policy.{policy_continue, policy_stop, normalize_replay_failure_policy}
use gdb_cli_tools.Replay.Run.{
  Session, Executed, returned, thrown, ReplayStepRunResult, ReplayActionStep, Stepped,
  write_skipped_replay_step, missing_action_step, replay_action_step, executed_step,
}
use gdb_cli_tools.Replay.Run.Plan.{
  ReplayRunResult, LoopState, is_failed, default_id, push_result, silent, step_of, run_step,
  skip_step, object_step, item_step, steps_loop, accepted, note_warning, replay_items,
  validated_result,
}

-- The indices of the results count up from the one behind `n`.
abbrev pub Indexed : ℕ → List ReplayStepRunResult → Type 0
Indexed n [] = Unit
Indexed n (r ∷ results) = (r.index ≡ n + 1) × Indexed (n + 1) results

abbrev pub no_failure : List ReplayStepRunResult → Bool
no_failure results = every (λ r. not (is_failed r.status)) results

abbrev pub items_size : {N : Type 0} → Items N → ℕ
items_size no_items = 0
items_size (item json items) = suc (items_size items)

Indexed-append :
    (n m : ℕ) (results : List ReplayStepRunResult) (r : ReplayStepRunResult)
    → Indexed n results
    → n + length results ≡ m
    → r.index ≡ m + 1
    → Indexed n (results ++ r ∷ [])
Indexed-append n m [] r h e k = (omega arith, tt)
Indexed-append n m (x ∷ results) r (p, h) e k =
    (p, Indexed-append (n + 1) m results r h (omega arith) k)

no_failure-append :
    (results : List ReplayStepRunResult) (r : ReplayStepRunResult)
    → no_failure (results ++ r ∷ []) ≡ (no_failure results && not (is_failed r.status))
no_failure-append [] r = ground arith
no_failure-append (x ∷ results) r = elim (Bool-cases (is_failed x.status)) [
  | inl e ↦ rw e
  | inr e ↦ rw e (no_failure-append results r)
]

-- The loop goes on with one more result, at its place, and its verdict counts.
pub record IsPushed {W : Type 0} (index : ℕ) (loop after : LoopState W) : Type 0 where
  pub result : ReplayStepRunResult
  pub appended : after.steps ≡ loop.steps ++ result ∷ []
  pub place : result.index ≡ index
  pub verdict : after.ok ≡ (loop.ok && not (is_failed result.status))
  pub stops :
      is_failed result.status ≡ true
      → same result.failure_policy policy_stop ≡ true
      → (reason : Bytes) × (after.stop ≡ some reason)

and_true : (b : Bool) → b ≡ (b && true)
and_true true = refl
and_true false = refl

and_false : (b : Bool) → false ≡ (b && false)
and_false true = refl
and_false false = refl

module _ {W : Type 0} where
  push_result-IsPushed :
      (index : ℕ) (loop : LoopState W) (s : Stepped W)
      → s.1.1.index ≡ index
      → IsPushed index loop (push_result loop s)
  unfolding push_result
  push_result-IsPushed index loop (w, (results, r)) e = elim (Bool-cases (is_failed r.status)) [
    | inl f ↦ record {
      result = r;
      appended = rw f;
      place = e;
      verdict = rw f (and_false loop.ok);
      stops = λ failed stop_policy. (
        codes "previous step " ++ (r.step_id ++ codes " failed under stop_on_error"),
        rw (f, stop_policy) refl,
      );
    }
    | inr f ↦ record {
      result = r;
      appended = rw f;
      place = e;
      verdict = rw f (and_true loop.ok);
      stops = λ failed. cc;
    }
  ]

module _ {N W : Type 0} (session : Session W) (numbers : Numbers N) (print : N → Bytes)
    (parse : Json N → ActionRequest) (plan_name plan_policy : Bytes) where
  executed_step-index :
      (step : ReplayActionStep) (action : ActionRequest) (name : Bytes) (e : W × Executed)
      → (executed_step session numbers print plan_name step action name e).1.1.index ≡ step.index
  unfolding executed_step
  executed_step-index step action name (w, returned output) = refl
  executed_step-index step action name (w, thrown what) = refl

  skip_step-IsPushed :
      (step : ReplayActionStep) (reason : Bytes) (loop : LoopState W)
      → IsPushed step.index loop
          (skip_step session numbers print parse plan_name plan_policy step reason loop)
  unfolding skip_step
  skip_step-IsPushed step reason loop = record {
    result = (write_skipped_replay_step session plan_name step reason loop.world).1;
    appended = refl;
    place = unfold write_skipped_replay_step in refl;
    verdict = unfold write_skipped_replay_step in and_true loop.ok;
    stops = λ failed. unfold write_skipped_replay_step in cc;
  }

  run_step-IsPushed :
      (step : ReplayActionStep) (action : Option (Json N)) (loop : LoopState W)
      → IsPushed step.index loop
          (run_step session numbers print parse plan_name plan_policy step action loop)
  unfolding run_step replay_action_step missing_action_step
  run_step-IsPushed step (some (object m)) loop =
      push_result-IsPushed step.index loop
        (replay_action_step session numbers print plan_name step (parse (object m)) loop.world)
        (executed_step-index step (parse (object m)) _
          (session.execute (parse (object m)) loop.world))
  run_step-IsPushed step none loop =
      push_result-IsPushed step.index loop
        (silent (missing_action_step session plan_name step loop.world)) refl
  run_step-IsPushed step (some null) loop =
      push_result-IsPushed step.index loop
        (silent (missing_action_step session plan_name step loop.world)) refl
  run_step-IsPushed step (some (bool b)) loop =
      push_result-IsPushed step.index loop
        (silent (missing_action_step session plan_name step loop.world)) refl
  run_step-IsPushed step (some (number n)) loop =
      push_result-IsPushed step.index loop
        (silent (missing_action_step session plan_name step loop.world)) refl
  run_step-IsPushed step (some (string s)) loop =
      push_result-IsPushed step.index loop
        (silent (missing_action_step session plan_name step loop.world)) refl
  run_step-IsPushed step (some (array a)) loop =
      push_result-IsPushed step.index loop
        (silent (missing_action_step session plan_name step loop.world)) refl

  object_step-IsPushed :
      (step : ReplayActionStep) (json : Json N) (stop : Option Bytes) (loop : LoopState W)
      → IsPushed step.index loop
          (object_step session numbers print parse plan_name plan_policy step json stop loop)
  unfolding object_step
  object_step-IsPushed step json (some reason) loop = skip_step-IsPushed step reason loop
  object_step-IsPushed step json none loop =
      if_both (IsPushed step.index loop) (bool_or json (codes "enabled") true)
        (run_step session numbers print parse plan_name plan_policy step
          (find json (codes "action")) loop)
        (skip_step session numbers print parse plan_name plan_policy step (codes "step disabled")
          loop)
        (λ e. run_step-IsPushed step (find json (codes "action")) loop)
        (λ e. skip_step-IsPushed step (codes "step disabled") loop)

  abbrev odd_step : ℕ → ReplayActionStep
  odd_step index = record {
    index = index;
    step_id = default_id index;
    name = codes "unknown";
    failure_policy = plan_policy;
  }

  pub item_step-IsPushed :
      (index : ℕ) (json : Json N) (loop : LoopState W)
      → IsPushed index loop
          (item_step session numbers print parse plan_name plan_policy index json loop)
  unfolding item_step
  item_step-IsPushed index (object m) loop =
      object_step-IsPushed
        (step_of session numbers print parse plan_name plan_policy index (object m)) (object m)
        loop.stop loop
  item_step-IsPushed index null loop =
      skip_step-IsPushed (odd_step index) (codes "step is not an object") loop
  item_step-IsPushed index (bool b) loop =
      skip_step-IsPushed (odd_step index) (codes "step is not an object") loop
  item_step-IsPushed index (number n) loop =
      skip_step-IsPushed (odd_step index) (codes "step is not an object") loop
  item_step-IsPushed index (string s) loop =
      skip_step-IsPushed (odd_step index) (codes "step is not an object") loop
  item_step-IsPushed index (array a) loop =
      skip_step-IsPushed (odd_step index) (codes "step is not an object") loop

  -- The results are numbered, as many as the steps behind them, and the verdict is theirs.
  abbrev pub IsAccount : ℕ → LoopState W → Type 0
  IsAccount n loop =
      Indexed 0 loop.steps × ((length loop.steps ≡ n) × (loop.ok ≡ no_failure loop.steps))

  IsPushed-IsAccount :
      (n : ℕ) (loop after : LoopState W)
      → IsPushed (n + 1) loop after
      → IsAccount n loop
      → IsAccount (n + 1) after
  IsPushed-IsAccount n loop after p (h, (l, v)) = (
    subst (Indexed 0) (sym p.appended)
        (Indexed-append 0 n loop.steps p.result h (omega arith) p.place),
    (
      ap length p.appended ∙ omega (arith, length-append loop.steps (p.result ∷ [])),
      p.verdict
          ∙ ap (λ b. b && not (is_failed p.result.status)) v
          ∙ sym (no_failure-append loop.steps p.result)
          ∙ ap no_failure (sym p.appended),
    ),
  )

  steps_loop-IsAccount :
      (n : ℕ) (items : Items N) (loop : LoopState W)
      → IsAccount n loop
      → IsAccount
          (n + items_size items)
          (steps_loop session numbers print parse plan_name plan_policy n items loop)
  unfolding steps_loop
  steps_loop-IsAccount n no_items loop h = subst (λ k. IsAccount k loop) (omega arith) h
  steps_loop-IsAccount n (item json items) loop h =
      let next = item_step session numbers print parse plan_name plan_policy (n + 1) json loop in
      subst
        (λ k.
          IsAccount k
            (steps_loop session numbers print parse plan_name plan_policy (n + 1) items next))
        (omega arith)
        (steps_loop-IsAccount (n + 1) items next
          (IsPushed-IsAccount n loop next (item_step-IsPushed (n + 1) json loop) h))

-- The results of a plan's steps: as many, numbered from one, and ok where none failed.
abbrev pub IsReplayOf : {N : Type 0} → Items N → ReplayRunResult → Type 0
IsReplayOf items run =
    Indexed 0 run.steps × ((length run.steps ≡ items_size items) × (run.ok ≡ no_failure run.steps))

module _ {N W : Type 0} (session : Session W) (numbers : Numbers N) (print : N → Bytes)
    (parse : Json N → ActionRequest) (stem file : Bytes) where
  accepted_lem :
      (plan : Json N) (items : Items N) (override : Bytes) (result : ReplayRunResult)
      (validation : ReplayPlanValidation) (prelude : List ActionResult) (w : W)
      → IsReplayOf items
          (accepted session numbers print parse stem file plan items override result validation
            prelude w).1.1
  unfolding accepted
  accepted_lem plan items override result validation prelude w =
      let policy =
        normalize_replay_failure_policy override
          (string_or plan (codes "failure_policy") policy_continue) in
      let start : LoopState W = record {
        world = (note_warning session numbers print parse stem file result validation w).0;
        prelude = prelude;
        ok = true;
        steps = [];
        stop = none;
      } in
      let account : IsAccount session numbers print parse result.plan_name policy
          (0 + items_size items)
          (steps_loop session numbers print parse result.plan_name policy 0 items start) =
        steps_loop-IsAccount session numbers print parse result.plan_name policy 0 items start
          (tt, (refl, refl)) in
      (account.0, (account.1.0 ∙ omega arith, account.1.1))

  -- A plan that passes its validation gives one result for each of its steps, in their order and
  -- numbered from one, whether the step ran, failed or was skipped; and the replay is ok exactly
  -- when no step failed.
  pub replay_items_lem :
      (plan : Json N) (items : Items N) (task : Option DebugTask) (force : Bool) (override : Bytes)
      (prelude : List ActionResult) (w : W)
      → (validate_replay_plan numbers.to_int plan task force).ok ≡ true
      → IsReplayOf items
          (replay_items session numbers print parse stem file plan items task force override prelude
            w).1.1
  unfolding replay_items
  replay_items_lem plan items task force override prelude w h =
      let validation = validate_replay_plan numbers.to_int plan task force in
      let result = validated_result session numbers print parse stem file plan force validation in
      rw h (accepted_lem plan items override result validation prelude w)
