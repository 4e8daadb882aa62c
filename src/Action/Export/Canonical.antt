-- ===== src/Action/Export/Canonical.antt =====
-- The requests that action_request_to_json can express, with their depth: the payload is of the form
-- that the kind asks for, and a time limit that the request does not set is the default one.
use gdb_cli_tools.Prelude.{
  ℕ, suc, ◌+◌, ◌≡◌, ◌⊎◌, Bool, true, false, [], is_empty, Bytes, codes, same,
}
use gdb_cli_tools.Task.Load.{ℤ, pos, negsuc}
use gdb_cli_tools.Action.{
  ActionRequest, request, ActionPayload, no_payload, timeout_payload, finish_payload,
  frame_select_payload, evaluate_payload, breakpoint_set_payload, watchpoint_set_payload,
  catchpoint_set_payload, probe_mutation_payload, run_payload, continue_payload, raw_mi_payload,
  hypothesis_create_payload, hypothesis_check_payload, hypothesis_conclude_payload,
  save_action_payload, save_action_payload_with, replay_payload, record_start_payload,
  OnHitPolicyRequest, not_configured, configured, ActionRequests, no_requests, more_requests,
  OnHitLimits, ProbeTexts, HypothesisCheckPayload, ReplayPayload,
}
use gdb_cli_tools.Action.Kind.{ActionKind, action_kind_from_name}
use gdb_cli_tools.Action.Policy.{valid_on_hit_failure_policy}
use gdb_cli_tools.Action.Export.{is_positive}

-- A limit that is set, or the default.
abbrev pub Timed : Bool → ℤ → ℤ → Type 0
Timed set z default = (set ≡ true) ⊎ (z ≡ default)

pub data TakesNothing : ActionKind → Type 0 where
  unknown_takes : TakesNothing ActionKind.unknown
  probe_list_takes : TakesNothing ActionKind.probe_list
  record_status_takes : TakesNothing ActionKind.record_status
  record_stop_takes : TakesNothing ActionKind.record_stop
  record_discard_takes : TakesNothing ActionKind.record_discard

pub data TakesTimeout : ActionKind → Type 0 where
  backtrace_takes : TakesTimeout ActionKind.backtrace
  locals_takes : TakesTimeout ActionKind.locals
  registers_takes : TakesTimeout ActionKind.registers
  threads_takes : TakesTimeout ActionKind.threads
  args_info_takes : TakesTimeout ActionKind.args_info

pub data TakesNumber : ActionKind → Type 0 where
  probe_enable_takes : TakesNumber ActionKind.probe_enable
  probe_disable_takes : TakesNumber ActionKind.probe_disable
  probe_delete_takes : TakesNumber ActionKind.probe_delete

pub record IsUsable (limits : OnHitLimits) : Type 0 where
  pub time : is_positive limits.timeout_ms ≡ true
  pub output : is_positive limits.max_output_bytes ≡ true
  pub lines : is_positive limits.max_summary_lines ≡ true
  pub policy : valid_on_hit_failure_policy limits.failure_policy ≡ true

mutual
  pub data IsCanonical : ActionRequest → Type 0 where
    of_name :
        (action : Bytes) {held : ActionPayload}
        → IsPayload (action_kind_from_name action) held
        → IsCanonical (request (action_kind_from_name action) action held)

  pub data IsPayload : ActionKind → ActionPayload → Type 0 where
    nothing_for : {kind : ActionKind} → TakesNothing kind → IsPayload kind no_payload
    timeout_for :
        {kind : ActionKind}
        → TakesTimeout kind
        → (z : ℤ) (set : Bool) → Timed set z (pos 5000)
        → IsPayload kind (timeout_payload z set)
    number_for :
        {kind : ActionKind} → TakesNumber kind → (z : ℤ) → IsPayload kind (probe_mutation_payload z)
    finish_for : (i c : Bytes) → IsPayload ActionKind.finish_session (finish_payload i c)
    frame_select_for :
        (frame z : ℤ) (set : Bool)
        → Timed set z (pos 5000)
        → IsPayload ActionKind.frame_select (frame_select_payload frame z set)
    evaluate_for :
        (e : Bytes) (z : ℤ) (set : Bool)
        → Timed set z (pos 5000)
        → IsPayload ActionKind.evaluate (evaluate_payload e z set)
    run_for :
        (z : ℤ) (set : Bool) (s : Bytes)
        → Timed set z (negsuc 0)
        → IsPayload ActionKind.run (run_payload z set s)
    continue_for :
        (z : ℤ) (set : Bool)
        → Timed set z (pos 30000)
        → IsPayload ActionKind.continue (continue_payload z set)
    raw_mi_for :
        (c r : Bytes) (z : ℤ) (set : Bool)
        → Timed set z (pos 5000)
        → IsPayload ActionKind.raw_mi (raw_mi_payload c r z set)
    breakpoint_for :
        (texts : ProbeTexts) {on_hit : OnHitPolicyRequest}
        → IsPolicy on_hit
        → IsPayload ActionKind.breakpoint_set (breakpoint_set_payload texts on_hit)
    watchpoint_for :
        (texts : ProbeTexts) {on_hit : OnHitPolicyRequest}
        → IsPolicy on_hit
        → IsPayload ActionKind.watchpoint_set (watchpoint_set_payload texts on_hit)
    -- The selector of a catchpoint is read under other keys than it is written.
    catchpoint_for :
        (texts : ProbeTexts) {on_hit : OnHitPolicyRequest}
        → texts.detail ≡ []
        → IsPolicy on_hit
        → IsPayload ActionKind.catchpoint_set (catchpoint_set_payload texts on_hit)
    create_for :
        (i t d : Bytes) → IsPayload ActionKind.hypothesis_create (hypothesis_create_payload i t d)
    check_for :
        (payload : HypothesisCheckPayload)
        → is_empty payload.assertion ≡ false
        → IsPayload ActionKind.hypothesis_check (hypothesis_check_payload payload)
    conclude_for :
        (h c i : Bytes)
        → is_empty c ≡ false
        → IsPayload ActionKind.hypothesis_conclude (hypothesis_conclude_payload h c i)
    save_for : (n p : Bytes) → IsPayload ActionKind.save_action (save_action_payload n p)
    save_with_for :
        (n p : Bytes) {r : ActionRequest}
        → IsCanonical r
        → IsPayload ActionKind.save_action (save_action_payload_with n p r)
    replay_for : (payload : ReplayPayload) → IsPayload ActionKind.replay (replay_payload payload)
    record_start_for :
        (n p : Bytes) (raw : Bool)
        → IsPayload ActionKind.record_start (record_start_payload n p raw)

  pub data IsPolicy : OnHitPolicyRequest → Type 0 where
    not_configured_ok : IsPolicy not_configured
    configured_ok :
        {actions : ActionRequests} (limits : OnHitLimits)
        → AreActions actions
        → IsUsable limits
        → IsPolicy (configured actions limits [])

  pub data AreActions : ActionRequests → Type 0 where
    none_of : AreActions no_requests
    more_of :
        (action : Bytes) {held : ActionPayload} {actions : ActionRequests}
        → same action (codes "raw_mi") ≡ false
        → IsCanonical (request (action_kind_from_name action) action held)
        → AreActions actions
        → AreActions (more_requests (request (action_kind_from_name action) action held) actions)

-- How deep requests stand in a request.
unfoldable mutual
  pub depth : ActionRequest → ℕ
  depth (request kind action payload) = suc (payload_depth payload)

  pub payload_depth : ActionPayload → ℕ
  payload_depth (breakpoint_set_payload texts on_hit) = policy_depth on_hit
  payload_depth (watchpoint_set_payload texts on_hit) = policy_depth on_hit
  payload_depth (catchpoint_set_payload texts on_hit) = policy_depth on_hit
  payload_depth (save_action_payload_with name policy r) = depth r
  payload_depth _ = 0

  pub policy_depth : OnHitPolicyRequest → ℕ
  policy_depth not_configured = 0
  policy_depth (configured actions limits error) = requests_depth actions

  pub requests_depth : ActionRequests → ℕ
  requests_depth no_requests = 0
  requests_depth (more_requests r actions) = depth r + requests_depth actions
