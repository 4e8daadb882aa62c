-- ===== src/Replay/Run/Plan/Stop.antt =====
-- The loop over a plan's steps behind a failure under stop_on_error.
use mathlib.Core.Option.{some-injective}
use gdb_cli_tools.Prelude.{
  ℕ, suc, ◌+◌, ◌≡◌, refl, sym, ap, ◌∙◌, Bool, true, false, Option, none, some, List, [], ◌∷◌, ◌++◌,
  append_assoc, append-nil, arith, length, every, Bytes, same, same_refl,
}
use gdb_cli_tools.Json.Value.{
  Json, Items, null, bool, number, string, array, object, no_items, item,
}
use gdb_cli_tools.Action.{ActionRequest}
use gdb_cli_tools.Action.Fields.{Numbers}
use gdb_cli_tools.Replay.Policy.{policy_stop}
use gdb_cli_tools.Replay.Run.{
  Session, Executed, StepStatus, step_skipped, ReplayStepRunResult, write_skipped_replay_step,
}
use gdb_cli_tools.Replay.Run.Plan.{
  LoopState, is_failed, push_step, step_of, skip_step, object_step, item_step, steps_loop,
}
use gdb_cli_tools.Replay.Run.Plan.Laws.{items_size, item_step-IsPushed}

-- The same session with other actions.
abbrev pub with_execute : {W : Type 0} → Session W → (ActionRequest → W → W × Executed) → Session W
with_execute session execute = record session { execute = execute }

abbrev pub is_skipped : StepStatus → Bool
is_skipped step_skipped = true
is_skipped _ = false

-- The loop behind `after` only adds results of skipped steps, `count` of them.
pub record OnlySkips {W : Type 0} (count : ℕ) (before after : LoopState W) : Type 0 where
  pub more : List ReplayStepRunResult
  pub appended : after.steps ≡ before.steps ++ more
  pub skipped : every (λ r. is_skipped r.status) more ≡ true
  pub number : length more ≡ count

OnlySkips-first :
    {W : Type 0} (count : ℕ) (loop next after : LoopState W) (r : ReplayStepRunResult)
    → next.steps ≡ loop.steps ++ r ∷ []
    → is_skipped r.status ≡ true
    → OnlySkips count next after
    → OnlySkips (suc count) loop after
OnlySkips-first count loop next after r e k h = record {
  more = r ∷ h.more;
  appended = h.appended ∙ ap (λ l. l ++ h.more) e ∙ append_assoc loop.steps (r ∷ []) h.more;
  skipped = rw k h.skipped;
  number = omega (arith, h.number);
}

unfoldable pub last_result : List ReplayStepRunResult → Option ReplayStepRunResult
last_result [] = none
last_result (r ∷ []) = some r
last_result (r ∷ next ∷ results) = last_result (next ∷ results)

last_result-append :
    (results : List ReplayStepRunResult) (r : ReplayStepRunResult)
    → last_result (results ++ r ∷ []) ≡ some r
unfolding last_result
last_result-append [] r = refl
last_result-append (x ∷ []) r = refl
last_result-append (x ∷ y ∷ results) r = last_result-append (y ∷ results) r

module _ {N W : Type 0} (numbers : Numbers N) (print : N → Bytes) (parse : Json N → ActionRequest)
    (plan_name plan_policy : Bytes) where
  -- One step of a plan in a session, and the loop over steps.
  abbrev step_in : Session W → ℕ → Json N → LoopState W → LoopState W
  step_in session n json loop =
      item_step session numbers print parse plan_name plan_policy n json loop

  abbrev loop_in : Session W → ℕ → Items N → LoopState W → LoopState W
  loop_in session n items loop =
      steps_loop session numbers print parse plan_name plan_policy n items loop

  record IsStopped (session : Session W) (execute : ActionRequest → W → W × Executed) (n : ℕ)
      (json : Json N) (loop : LoopState W) (reason : Bytes) : Type 0 where
    same_step : step_in session n json loop ≡ step_in (with_execute session execute) n json loop
    stopped : (step_in session n json loop).stop ≡ some reason
    result : ReplayStepRunResult
    appended : (step_in session n json loop).steps ≡ loop.steps ++ result ∷ []
    skipped : is_skipped result.status ≡ true

  item_step-IsStopped :
      (session : Session W) (execute : ActionRequest → W → W × Executed) (n : ℕ) (json : Json N)
      (loop : LoopState W) (reason : Bytes)
      → loop.stop ≡ some reason
      → IsStopped session execute n json loop reason
  unfolding item_step object_step skip_step push_step write_skipped_replay_step step_of
  item_step-IsStopped session execute n (object m) loop reason h = record {
    same_step = rw h refl;
    stopped = rw h refl;
    result =
        (write_skipped_replay_step session plan_name
          (step_of session numbers print parse plan_name plan_policy n (object m)) reason
          loop.world).1;
    appended = rw h refl;
    skipped = refl;
  }
  item_step-IsStopped session execute n null loop reason h = record {
    same_step = refl;
    stopped = h;
    result = _;
    appended = refl;
    skipped = refl;
  }
  item_step-IsStopped session execute n (bool b) loop reason h = record {
    same_step = refl;
    stopped = h;
    result = _;
    appended = refl;
    skipped = refl;
  }
  item_step-IsStopped session execute n (number x) loop reason h = record {
    same_step = refl;
    stopped = h;
    result = _;
    appended = refl;
    skipped = refl;
  }
  item_step-IsStopped session execute n (string s) loop reason h = record {
    same_step = refl;
    stopped = h;
    result = _;
    appended = refl;
    skipped = refl;
  }
  item_step-IsStopped session execute n (array a) loop reason h = record {
    same_step = refl;
    stopped = h;
    result = _;
    appended = refl;
    skipped = refl;
  }

  stopped_loop :
      (session : Session W) (execute : ActionRequest → W → W × Executed) (n : ℕ) (items : Items N)
      (loop : LoopState W) (reason : Bytes)
      → loop.stop ≡ some reason
      → (loop_in session n items loop ≡ loop_in (with_execute session execute) n items loop)
        × OnlySkips (items_size items) loop (loop_in session n items loop)
  unfolding steps_loop
  stopped_loop session execute n no_items loop reason h = (
    refl,
    record { more = []; appended = sym (append-nil loop.steps); skipped = refl; number = refl },
  )
  stopped_loop session execute n (item json items) loop reason h =
      let s = item_step-IsStopped session execute (n + 1) json loop reason h in
      let next = step_in session (n + 1) json loop in
      let (same_rest, rest) = stopped_loop session execute (n + 1) items next reason s.stopped in
      (
        same_rest ∙ ap (loop_in (with_execute session execute) (n + 1) items) s.same_step,
        OnlySkips-first (items_size items) loop next _ s.result s.appended s.skipped rest,
      )

  -- When the last result that a step of a plan adds is a failure under the policy stop_on_error, what
  -- the rest of the plan gives does not depend on what the actions would do: none of them is executed,
  -- and each step of the rest adds a result that says it is skipped.
  pub steps_loop-stopped :
      (session : Session W) (execute : ActionRequest → W → W × Executed) (n : ℕ) (json : Json N)
      (items : Items N) (loop : LoopState W) (r : ReplayStepRunResult)
      → last_result
          (item_step session numbers print parse plan_name plan_policy (n + 1) json loop).steps
        ≡ some r
      → is_failed r.status ≡ true
      → r.failure_policy ≡ policy_stop
      → let next = item_step session numbers print parse plan_name plan_policy (n + 1) json loop in
        let final =
          steps_loop session numbers print parse plan_name plan_policy n (item json items) loop in
        (final
          ≡ steps_loop
              (with_execute session execute)
              numbers
              print
              parse
              plan_name
              plan_policy
              (n + 1)
              items
              next)
        × OnlySkips (items_size items) next final
  unfolding steps_loop
  steps_loop-stopped session execute n json items loop r e failed policy =
      let p =
        item_step-IsPushed session numbers print parse plan_name plan_policy (n + 1) json loop in
      let it : p.result ≡ r =
        some-injective _ _
          (sym (last_result-append loop.steps p.result) ∙ ap last_result (sym p.appended) ∙ e) in
      let (reason, stop) = p.stops (ap (λ x. is_failed x.status) it ∙ failed) (
        ap (λ x. same x.failure_policy policy_stop) it
        ∙ ap (λ x. same x policy_stop) policy
        ∙ same_refl policy_stop) in
      stopped_loop session execute (n + 1) items (step_in session (n + 1) json loop) reason stop
