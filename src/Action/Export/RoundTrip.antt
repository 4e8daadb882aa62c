-- ===== src/Action/Export/RoundTrip.antt =====
-- parse_action_request behind action_request_to_json.
use gdb_cli_tools.Prelude.{ℕ, zero, suc, ◌≤◌, ◌≡◌, Option, none, some, [], arith, Bytes, codes}
use gdb_cli_tools.Json.Value.{Members, object, find_member}
use gdb_cli_tools.Action.{
  ActionRequest, request, ActionPayload, OnHitPolicyRequest, not_configured, ActionRequests,
  ProbeTexts, catchpoint_set_payload,
}
use gdb_cli_tools.Action.Kind.{ActionKind, action_kind_from_name}
use gdb_cli_tools.Action.Fields.{Numbers}
use gdb_cli_tools.Action.Policy.{parse_on_hit_items, parse_on_hit_policy}
use gdb_cli_tools.Action.Parse.{parse_action_request}
use gdb_cli_tools.Action.Export.{put_on_hit, request_items, put_probe_texts, action_request_to_json}
use gdb_cli_tools.Action.Export.Lookup.{KeepsInts, lookups}
use gdb_cli_tools.Action.Export.Canonical.{
  IsCanonical, IsPayload, IsPolicy, AreActions, depth, payload_depth, policy_depth, requests_depth,
}
use gdb_cli_tools.Action.Export.Payloads
use gdb_cli_tools.Action.Export.Limits
use gdb_cli_tools.Action.Export.Payloads.{named, Reads}
use gdb_cli_tools.Action.Export.Policies.{KeepsSign, policy_lem, no_policy_lem}
use gdb_cli_tools.Action.Export.Steps.{request_step, no_actions, actions_step}
use gdb_cli_tools.Action.Export.Probes.{
  breakpoint_lem, watchpoint_lem, catchpoint_lem, catchpoint_reads, save_with_lem,
}

module _ {N : Type 0} (numbers : Numbers N) (from_chars : Bytes → Option N)
    (keeps : KeepsInts numbers) (signs : KeepsSign numbers) where
  mutual
    unfolding depth payload_depth policy_depth requests_depth put_on_hit put_probe_texts

    request_back :
        {r : ActionRequest}
        → IsCanonical r
        → (fuel : ℕ) → depth r ≤ fuel
        → parse_action_request numbers from_chars fuel (action_request_to_json numbers r) ≡ some r
    request_back (IsCanonical.of_name action {held} p) zero le = absurd (omega arith)
    request_back (IsCanonical.of_name action {held} p) (suc fuel) le =
        request_step numbers from_chars action held held fuel
          (payload_back p action fuel (omega arith))

    payload_back :
        {kind : ActionKind} {held : ActionPayload}
        → IsPayload kind held
        → (action : Bytes) (fuel : ℕ) → payload_depth held ≤ fuel
        → Reads numbers from_chars (parse_action_request numbers from_chars fuel) action kind held
    payload_back (IsPayload.nothing_for {kind} k) action fuel le =
        Payloads.nothing_lem numbers from_chars (parse_action_request numbers from_chars fuel)
          action kind k
    payload_back (IsPayload.timeout_for {kind} k z set t) action fuel le =
        Limits.timeouts_lem numbers from_chars (parse_action_request numbers from_chars fuel) keeps
          action kind k z set t
    payload_back (IsPayload.number_for {kind} k z) action fuel le =
        Limits.numbers_lem numbers from_chars (parse_action_request numbers from_chars fuel) keeps
          action kind k z
    payload_back (IsPayload.finish_for i c) action fuel le =
        Payloads.finish_lem numbers from_chars (parse_action_request numbers from_chars fuel) action
          i c
    payload_back (IsPayload.frame_select_for f z set t) action fuel le =
        Limits.frame_select_lem numbers from_chars (parse_action_request numbers from_chars fuel)
          keeps action f z set t
    payload_back (IsPayload.evaluate_for e z set t) action fuel le =
        Limits.evaluate_lem numbers from_chars (parse_action_request numbers from_chars fuel) keeps
          action e z set t
    payload_back (IsPayload.run_for z set s t) action fuel le =
        Limits.run_lem numbers from_chars (parse_action_request numbers from_chars fuel) keeps
          action z set s t
    payload_back (IsPayload.continue_for z set t) action fuel le =
        Limits.continue_lem numbers from_chars (parse_action_request numbers from_chars fuel) keeps
          action z set t
    payload_back (IsPayload.raw_mi_for c r z set t) action fuel le =
        Limits.raw_mi_lem numbers from_chars (parse_action_request numbers from_chars fuel) keeps
          action c r z set t
    payload_back (IsPayload.breakpoint_for texts {on_hit} p) action fuel le =
        breakpoint_lem numbers from_chars (parse_action_request numbers from_chars fuel) action
          texts on_hit
          (policy_back p fuel le
            (put_probe_texts (codes "location") (codes "condition") texts (named action))
            (simp lookups) (simp lookups))
    payload_back (IsPayload.watchpoint_for texts {on_hit} p) action fuel le =
        watchpoint_lem numbers from_chars (parse_action_request numbers from_chars fuel) action
          texts on_hit
          (policy_back p fuel le
            (put_probe_texts (codes "expression") (codes "condition") texts (named action))
            (simp lookups) (simp lookups))
    payload_back (IsPayload.catchpoint_for texts {on_hit} d p) action fuel le =
        catchpoint_lem numbers from_chars (parse_action_request numbers from_chars fuel) action
          texts on_hit d
          (policy_back p fuel le
            (put_probe_texts (codes "event") (codes "selector") texts (named action)) (simp lookups)
            (simp lookups))
    payload_back (IsPayload.create_for i t d) action fuel le =
        Payloads.create_lem numbers from_chars (parse_action_request numbers from_chars fuel) action
          i t d
    payload_back (IsPayload.check_for c e) action fuel le =
        Payloads.check_lem numbers from_chars (parse_action_request numbers from_chars fuel) action
          c e
    payload_back (IsPayload.conclude_for h c i e) action fuel le =
        Payloads.conclude_lem numbers from_chars (parse_action_request numbers from_chars fuel)
          action h c i e
    payload_back (IsPayload.save_for n p) action fuel le =
        Payloads.save_lem numbers from_chars (parse_action_request numbers from_chars fuel) action n
          p
    payload_back (IsPayload.save_with_for n p {r} h) action fuel le =
        save_with_lem numbers from_chars (parse_action_request numbers from_chars fuel) action n p r
          (request_back h fuel le)
    payload_back (IsPayload.replay_for r) action fuel le =
        Payloads.replay_lem numbers from_chars (parse_action_request numbers from_chars fuel) action
          r
    payload_back (IsPayload.record_start_for n p raw) action fuel le =
        Payloads.record_start_lem numbers from_chars (parse_action_request numbers from_chars fuel)
          action n p raw

    policy_back :
        {on_hit : OnHitPolicyRequest}
        → IsPolicy on_hit
        → (fuel : ℕ) → policy_depth on_hit ≤ fuel
        → (m : Members N) → find_member (codes "params") m ≡ none
        → find_member (codes "on_hit") m ≡ none
        → parse_on_hit_policy numbers
            (parse_action_request numbers from_chars fuel)
            (object (put_on_hit numbers on_hit m))
          ≡ some on_hit
    policy_back IsPolicy.not_configured_ok fuel le m p e =
        no_policy_lem numbers (parse_action_request numbers from_chars fuel) m p e
    policy_back (IsPolicy.configured_ok {actions} limits hs u) fuel le m p e =
        policy_lem numbers keeps signs (parse_action_request numbers from_chars fuel) actions limits
          m u (actions_back hs fuel le)

    actions_back :
        {actions : ActionRequests}
        → AreActions actions
        → (fuel : ℕ) → requests_depth actions ≤ fuel
        → parse_on_hit_items
            (parse_action_request numbers from_chars fuel)
            (request_items numbers actions)
          ≡ some (actions, [])
    actions_back AreActions.none_of fuel le =
        no_actions numbers from_chars (parse_action_request numbers from_chars fuel)
    actions_back (AreActions.more_of action {held} {actions} h c hs) fuel le =
        actions_step numbers from_chars (parse_action_request numbers from_chars fuel) action held
          actions h (request_back c fuel (omega arith)) (actions_back hs fuel (omega arith))

  -- Where an int is turned back from its double, and a positive int has a positive double: a
  -- canonical request, with all the requests in it, is read back from its JSON object by any fuel
  -- that is at least its depth.
  pub parse_action_request-action_request_to_json :
      (r : ActionRequest)
      → IsCanonical r
      → (fuel : ℕ) → depth r ≤ fuel
      → parse_action_request numbers from_chars fuel (action_request_to_json numbers r) ≡ some r
  parse_action_request-action_request_to_json r h fuel le = request_back h fuel le

-- A catchpoint without an on_hit policy comes back from its JSON object without its selector, and
-- with all else: the selector is written as selector, and read from name or syscall.
pub catchpoint_selector_lem :
    {N : Type 0} (numbers : Numbers N) (from_chars : Bytes → Option N) (texts : ProbeTexts)
    (fuel : ℕ)
    → parse_action_request numbers from_chars (suc fuel) (
        action_request_to_json numbers (
          request ActionKind.catchpoint_set
            (codes "catchpoint_set")
            (catchpoint_set_payload texts not_configured)))
      ≡ some (
          request ActionKind.catchpoint_set
            (codes "catchpoint_set")
            (catchpoint_set_payload (record texts { detail = [] }) not_configured))
unfolding action_kind_from_name put_on_hit put_probe_texts
catchpoint_selector_lem numbers from_chars texts fuel =
    let m : Members _ =
      put_probe_texts (codes "event") (codes "selector") texts (named (codes "catchpoint_set")) in
    request_step numbers from_chars (codes "catchpoint_set")
      (catchpoint_set_payload texts not_configured)
      (catchpoint_set_payload (record texts { detail = [] }) not_configured) fuel
      (catchpoint_reads numbers from_chars (parse_action_request numbers from_chars fuel)
        (codes "catchpoint_set") texts not_configured
        (no_policy_lem numbers (parse_action_request numbers from_chars fuel) m (simp lookups)
          (simp lookups)))
