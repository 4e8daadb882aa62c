-- ===== src/Action.antt =====
-- The requests of src/cli/action.hpp: the kinds of action, their payloads and the request, which may
-- hold further requests (the actions of an on_hit policy, and a saved action).
pub mod Kind
pub mod Fields
pub mod Policy
pub mod Parse
pub mod Export
pub mod Result
pub mod Timeout
use gdb_cli_tools.Prelude.{Bool, false, Bytes, codes}
use gdb_cli_tools.Task.Load.{ℤ, pos}
use gdb_cli_tools.Action.Kind.{ActionKind}

-- The numbers of an OnHitPolicyRequest, with its failure policy and its last flag.
pub record OnHitLimits : Type 0 where
  pub timeout_ms : ℤ
  pub max_output_bytes : ℤ
  pub max_summary_lines : ℤ
  pub failure_policy : Bytes
  pub continue_after_hit : Bool

-- The default member initializers.
abbrev pub default_limits : OnHitLimits
default_limits = record {
  timeout_ms = pos 5000;
  max_output_bytes = pos 8192;
  max_summary_lines = pos 80;
  failure_policy = codes "continue_on_error";
  continue_after_hit = false;
}

-- The texts of a breakpoint_set, a watchpoint_set or a catchpoint_set: location and condition,
-- expression and condition, event and selector.
pub record ProbeTexts : Type 0 where
  pub place : Bytes
  pub detail : Bytes
  pub comment : Bytes
  pub purpose : Bytes

pub record HypothesisCheckPayload : Type 0 where
  pub hypothesis : Bytes
  pub expression : Bytes
  pub description : Bytes
  pub assertion : Bytes
  pub expected : Bytes

pub record ReplayPayload : Type 0 where
  pub file : Bytes
  pub name : Bytes
  pub force : Bool
  pub failure_policy : Bytes

-- Where a payload has a time limit, the Boolean says whether the request sets it.
mutual
  pub data ActionRequest : Type 0 where
    request : ActionKind → Bytes → ActionPayload → ActionRequest

  pub data ActionPayload : Type 0 where
    no_payload : ActionPayload
    timeout_payload : ℤ → Bool → ActionPayload
    finish_payload : Bytes → Bytes → ActionPayload
    frame_select_payload : ℤ → ℤ → Bool → ActionPayload
    evaluate_payload : Bytes → ℤ → Bool → ActionPayload
    breakpoint_set_payload : ProbeTexts → OnHitPolicyRequest → ActionPayload
    watchpoint_set_payload : ProbeTexts → OnHitPolicyRequest → ActionPayload
    catchpoint_set_payload : ProbeTexts → OnHitPolicyRequest → ActionPayload
    probe_mutation_payload : ℤ → ActionPayload
    run_payload : ℤ → Bool → Bytes → ActionPayload
    continue_payload : ℤ → Bool → ActionPayload
    raw_mi_payload : Bytes → Bytes → ℤ → Bool → ActionPayload
    hypothesis_create_payload : Bytes → Bytes → Bytes → ActionPayload
    hypothesis_check_payload : HypothesisCheckPayload → ActionPayload
    hypothesis_conclude_payload : Bytes → Bytes → Bytes → ActionPayload
    save_action_payload : Bytes → Bytes → ActionPayload
    save_action_payload_with : Bytes → Bytes → ActionRequest → ActionPayload
    replay_payload : ReplayPayload → ActionPayload
    record_start_payload : Bytes → Bytes → Bool → ActionPayload

  -- The actions, the limits and the error; `not_configured` has the default of each.
  pub data OnHitPolicyRequest : Type 0 where
    not_configured : OnHitPolicyRequest
    configured : ActionRequests → OnHitLimits → Bytes → OnHitPolicyRequest

  pub data ActionRequests : Type 0 where
    no_requests : ActionRequests
    more_requests : ActionRequest → ActionRequests → ActionRequests
