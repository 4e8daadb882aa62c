-- ===== src/Action/Export.antt =====
-- action_request_to_json of src/cli/action.cpp: the JSON object of a request, a field at a time.
pub mod Lookup
pub mod Canonical
pub mod Payloads
pub mod Limits
pub mod Policies
pub mod Probes
pub mod Steps
pub mod RoundTrip
use gdb_cli_tools.Prelude.{
  Bool, true, false, not, ◌||◌, ltb, ◌==◌, if◌then◌else◌, is_empty, Bytes, codes, same,
}
use gdb_cli_tools.Task.Load.{ℤ, pos, negsuc}
use gdb_cli_tools.Json.Value.{
  Json, Items, Members, bool, number, string, array, object, no_items, item, no_members,
}
use gdb_cli_tools.Action.{
  ActionRequest, request, ActionPayload, no_payload, timeout_payload, finish_payload,
  frame_select_payload, evaluate_payload, breakpoint_set_payload, watchpoint_set_payload,
  catchpoint_set_payload, probe_mutation_payload, run_payload, continue_payload, raw_mi_payload,
  hypothesis_create_payload, hypothesis_check_payload, hypothesis_conclude_payload,
  save_action_payload, save_action_payload_with, replay_payload, record_start_payload,
  OnHitPolicyRequest, not_configured, configured, ActionRequests, no_requests, more_requests,
  OnHitLimits, ProbeTexts, HypothesisCheckPayload, ReplayPayload,
}
use gdb_cli_tools.Action.Kind.{action_kind_name}
use gdb_cli_tools.Action.Fields.{Numbers, assign_member}
use gdb_cli_tools.Action.Parse.{or_text}

abbrev pub same_int : ℤ → ℤ → Bool
same_int (pos m) (pos n) = m == n
same_int (negsuc m) (negsuc n) = m == n
same_int _ _ = false

-- value > 0
abbrev pub is_positive : ℤ → Bool
is_positive (pos n) = ltb 0 n
is_positive (negsuc n) = false

module _ {N : Type 0} where
  -- if (!text.empty()) json.object_value[key] = json_string(text)
  unfoldable pub put_text : Bytes → Bytes → Members N → Members N
  unfolding assign_member
  put_text key text m = if is_empty text then m else assign_member key (string text) m

  -- if (flag) json.object_value[key] = json_bool(flag)
  unfoldable pub put_flag : Bytes → Bool → Members N → Members N
  unfolding assign_member
  put_flag key flag m = if flag then assign_member key (bool true) m else m

  -- The texts of a breakpoint, a watchpoint or a catchpoint, under the keys of the first two.
  unfoldable pub put_probe_texts : Bytes → Bytes → ProbeTexts → Members N → Members N
  unfolding assign_member put_text
  put_probe_texts place detail texts m = put_text (codes "purpose") texts.purpose (
      put_text (codes "comment") texts.comment
        (put_text detail texts.detail (assign_member place (string texts.place) m)))

  unfoldable pub put_check : HypothesisCheckPayload → Members N → Members N
  unfolding assign_member put_text
  put_check payload m =
      let written = put_text (codes "description") payload.description (
        assign_member (codes "expression") (string payload.expression)
          (assign_member (codes "hypothesis") (string payload.hypothesis) m)) in
      put_text (codes "expected") payload.expected (
        if same payload.assertion (codes "none")
        then written
        else put_text (codes "assertion") payload.assertion written)

  unfoldable pub put_replay : ReplayPayload → Members N → Members N
  unfolding put_text put_flag
  put_replay payload m = put_text (codes "failure_policy") payload.failure_policy (
      put_flag (codes "force") payload.force
        (put_text (codes "name") payload.name (put_text (codes "file") payload.file m)))

module _ {N : Type 0} (numbers : Numbers N) where
  abbrev pub json_number : ℤ → Json N
  json_number value = number (numbers.of_int value)

  -- A time limit, written where the test holds.
  unfoldable pub put_time : Bytes → Bool → ℤ → Members N → Members N
  unfolding assign_member
  put_time key test value m = if test then assign_member key (json_number value) m else m

  unfoldable pub put_timeout : ℤ → Bool → Members N → Members N
  unfolding put_time
  put_timeout timeout_ms timeout_ms_set =
      put_time (codes "timeout_ms") (timeout_ms_set || not (same_int timeout_ms (pos 5000)))
        timeout_ms

  unfoldable pub policy_members : Items N → OnHitLimits → Members N
  unfolding assign_member
  policy_members actions limits =
      assign_member (codes "continue_after_hit") (bool limits.continue_after_hit) (
        assign_member (codes "failure_policy") (string limits.failure_policy) (
          assign_member (codes "max_summary_lines") (json_number limits.max_summary_lines) (
            assign_member (codes "max_output_bytes") (json_number limits.max_output_bytes) (
              assign_member (codes "timeout_ms") (json_number limits.timeout_ms)
                (assign_member (codes "actions") (array actions) no_members)))))

  unfoldable mutual
    unfolding action_kind_name assign_member put_text put_flag put_probe_texts put_check put_replay
        put_time put_timeout policy_members

    pub action_request_to_json : ActionRequest → Json N
    action_request_to_json (request kind action payload) = object (
        payload_members payload (
          assign_member (codes "action") (string (or_text action (action_kind_name kind)))
            no_members))

    pub payload_members : ActionPayload → Members N → Members N
    payload_members no_payload m = m
    payload_members (timeout_payload timeout_ms set) m = put_timeout timeout_ms set m
    payload_members (frame_select_payload frame timeout_ms set) m =
        put_timeout timeout_ms set (assign_member (codes "frame") (json_number frame) m)
    payload_members (evaluate_payload expression timeout_ms set) m =
        put_timeout timeout_ms set (assign_member (codes "expression") (string expression) m)
    payload_members (run_payload deadline_ms set stdin_path) m =
        put_text (codes "stdin") stdin_path
          (put_time (codes "deadline_ms") (set || is_positive deadline_ms) deadline_ms m)
    payload_members (continue_payload deadline_ms set) m =
        put_time (codes "deadline_ms") (set || not (same_int deadline_ms (pos 30000))) deadline_ms m
    payload_members (raw_mi_payload command risk timeout_ms set) m = put_timeout timeout_ms set (
        assign_member (codes "risk") (string risk)
          (assign_member (codes "command") (string command) m))
    payload_members (breakpoint_set_payload texts on_hit) m =
        put_on_hit on_hit (put_probe_texts (codes "location") (codes "condition") texts m)
    payload_members (watchpoint_set_payload texts on_hit) m =
        put_on_hit on_hit (put_probe_texts (codes "expression") (codes "condition") texts m)
    payload_members (catchpoint_set_payload texts on_hit) m =
        put_on_hit on_hit (put_probe_texts (codes "event") (codes "selector") texts m)
    payload_members (probe_mutation_payload value) m =
        assign_member (codes "number") (json_number value) m
    payload_members (hypothesis_create_payload id title description) m =
        put_text (codes "description") description
          (put_text (codes "title") title (put_text (codes "id") id m))
    payload_members (hypothesis_check_payload payload) m = put_check payload m
    payload_members (hypothesis_conclude_payload hypothesis conclusion inference) m =
        put_text (codes "inference") inference (
          put_text (codes "conclusion") conclusion
            (assign_member (codes "hypothesis") (string hypothesis) m))
    payload_members (save_action_payload name policy) m =
        put_text (codes "failure_policy") policy (assign_member (codes "name") (string name) m)
    payload_members (save_action_payload_with name policy saved_action) m =
        assign_member (codes "saved_action") (action_request_to_json saved_action)
          (put_text (codes "failure_policy") policy (assign_member (codes "name") (string name) m))
    payload_members (replay_payload payload) m = put_replay payload m
    payload_members (record_start_payload name policy include_raw_mi) m =
        put_flag (codes "include_raw_mi") include_raw_mi
          (put_text (codes "failure_policy") policy (put_text (codes "name") name m))
    payload_members (finish_payload agent_inference final_conclusion) m =
        put_text (codes "final_conclusion") final_conclusion
          (put_text (codes "agent_inference") agent_inference m)

    pub put_on_hit : OnHitPolicyRequest → Members N → Members N
    put_on_hit not_configured m = m
    put_on_hit (configured actions limits error) m =
        assign_member (codes "on_hit") (object (policy_members (request_items actions) limits)) m

    pub request_items : ActionRequests → Items N
    request_items no_requests = no_items
    request_items (more_requests r actions) =
        item (action_request_to_json r) (request_items actions)
