-- ===== src/Action/Export/Steps.antt =====
-- One request behind action_request_to_json: its name is read back, and then its payload.
use gdb_cli_tools.Prelude.{
  ℕ, suc, ◌≡◌, refl, sym, ap, ◌∙◌, inl, inr, false, Option, some, [], ◌∷◌, Bool-cases, Bytes, codes,
  same,
}
use gdb_cli_tools.Json.Value.{Json, Members, string, object, no_members, string_or}
use gdb_cli_tools.Action.{
  ActionRequest, request, ActionPayload, not_configured, configured, ActionRequests, no_requests,
  more_requests, breakpoint_set_payload, watchpoint_set_payload, catchpoint_set_payload,
  save_action_payload_with, no_payload, timeout_payload, finish_payload, frame_select_payload,
  evaluate_payload, probe_mutation_payload, run_payload, continue_payload, raw_mi_payload,
  hypothesis_create_payload, hypothesis_check_payload, hypothesis_conclude_payload,
  save_action_payload, replay_payload, record_start_payload,
}
use gdb_cli_tools.Action.Kind.{action_kind_from_name, action_kind_name}
use gdb_cli_tools.Action.Fields.{Numbers, assign_member}
use gdb_cli_tools.Action.Policy.{Actions, and_then, parse_on_hit_items, parse_on_hit_action}
use gdb_cli_tools.Action.Parse.{parse_payload, parse_action_request, or_text}
use gdb_cli_tools.Action.Export.{
  request_items, payload_members, put_probe_texts, action_request_to_json, put_check, put_replay,
  put_timeout,
}
use gdb_cli_tools.Action.Export.Lookup.{lookups, text_at, string_or-object}
use gdb_cli_tools.Action.Export.Payloads.{named}

named_text :
    (action : Bytes) → or_text action (action_kind_name (action_kind_from_name action)) ≡ action
unfolding action_kind_name action_kind_from_name
named_text [] = refl
named_text (c ∷ action) = refl

module _ {N : Type 0} (numbers : Numbers N) (from_chars : Bytes → Option N) where
  -- No payload has a member named action.
  pub action_kept :
      (held : ActionPayload) (action : Bytes)
      → text_at (codes "action") (payload_members numbers held (named action)) ≡ action
  unfolding payload_members put_probe_texts put_check put_replay put_timeout
  action_kept no_payload action = simp lookups
  action_kept (timeout_payload z set) action = simp lookups
  action_kept (frame_select_payload f z set) action = simp lookups
  action_kept (evaluate_payload e z set) action = simp lookups
  action_kept (run_payload z set s) action = simp lookups
  action_kept (continue_payload z set) action = simp lookups
  action_kept (raw_mi_payload c r z set) action = simp lookups
  action_kept (breakpoint_set_payload t not_configured) action = simp lookups
  action_kept (breakpoint_set_payload t (configured a l e)) action = simp lookups
  action_kept (watchpoint_set_payload t not_configured) action = simp lookups
  action_kept (watchpoint_set_payload t (configured a l e)) action = simp lookups
  action_kept (catchpoint_set_payload t not_configured) action = simp lookups
  action_kept (catchpoint_set_payload t (configured a l e)) action = simp lookups
  action_kept (probe_mutation_payload z) action = simp lookups
  action_kept (hypothesis_create_payload i t d) action = simp lookups
  action_kept (hypothesis_conclude_payload h c i) action = simp lookups
  action_kept (save_action_payload n p) action = simp lookups
  action_kept (save_action_payload_with n p r) action = simp lookups
  action_kept (replay_payload p) action = simp lookups
  action_kept (record_start_payload n p r) action = simp lookups
  action_kept (finish_payload i c) action = simp lookups
  action_kept (hypothesis_check_payload p) action =
      elim (Bool-cases (same p.assertion (codes "none"))) [
        | inl a ↦ simp (lookups, a)
        | inr a ↦ simp (lookups, a)
      ]

  abbrev pub written : Bytes → ActionPayload → Json N
  written action held = object (payload_members numbers held (named action))

  to_json_lem :
      (action : Bytes) (held : ActionPayload)
      → action_request_to_json numbers (request (action_kind_from_name action) action held)
        ≡ written action held
  unfolding action_request_to_json
  to_json_lem action held =
      ap
        (λ t.
          object
            (payload_members numbers held (assign_member (codes "action") (string t) no_members)))
        (named_text action)

  name_read :
      (action : Bytes) (held : ActionPayload)
      → string_or (written action held) (codes "action") [] ≡ action
  name_read action held =
      string_or-object (codes "action") (payload_members numbers held (named action))
      ∙ action_kept held action

  abbrev pub act_at : ℕ → Json N → Option ActionRequest
  act_at fuel = parse_action_request numbers from_chars fuel

  step_lem :
      (json : Json N) (action : Bytes) (held : ActionPayload) (fuel : ℕ)
      → string_or json (codes "action") [] ≡ action
      → parse_payload numbers from_chars (act_at fuel) json (action_kind_from_name action)
        ≡ some held
      → parse_action_request numbers from_chars (suc fuel) json
        ≡ some (request (action_kind_from_name action) action held)
  unfolding parse_action_request
  step_lem json action held fuel e h =
      ap
        (λ t.
          and_then (parse_payload numbers from_chars (act_at fuel) json (action_kind_from_name t))
            (λ p. some (request (action_kind_from_name t) t p)))
        e
      ∙ ap (λ o. and_then o (λ p. some (request (action_kind_from_name action) action p))) h

  pub request_step :
      (action : Bytes) (held back : ActionPayload) (fuel : ℕ)
      → parse_payload numbers from_chars
          (act_at fuel)
          (written action held)
          (action_kind_from_name action)
        ≡ some back
      → parse_action_request numbers from_chars
          (suc fuel)
          (action_request_to_json numbers (request (action_kind_from_name action) action held))
        ≡ some (request (action_kind_from_name action) action back)
  request_step action held back fuel h =
      ap (parse_action_request numbers from_chars (suc fuel)) (to_json_lem action held)
      ∙ step_lem (written action held) action back fuel (name_read action held) h

  -- An action that is read, in front of actions that are read.
  item_lem :
      (act : Json N → Option ActionRequest) (m : Members N) (rest : Option Actions) (action : Bytes)
      (r : ActionRequest) (actions : ActionRequests)
      → string_or (object m) (codes "action") [] ≡ action
      → same action (codes "raw_mi") ≡ false
      → act (object m) ≡ some r
      → rest ≡ some (actions, [])
      → parse_on_hit_action act (object m) rest ≡ some (more_requests r actions, [])
  unfolding parse_on_hit_action
  item_lem act m rest action r actions e h a k = rw (parse_on_hit_action, e, h, a, k)

  pub no_actions :
      (act : Json N → Option ActionRequest)
      → parse_on_hit_items act (request_items numbers no_requests) ≡ some (no_requests, [])
  unfolding parse_on_hit_items request_items
  no_actions act = refl

  pub actions_step :
      (act : Json N → Option ActionRequest) (action : Bytes) (held : ActionPayload)
      (actions : ActionRequests)
      → same action (codes "raw_mi") ≡ false
      → act (action_request_to_json numbers (request (action_kind_from_name action) action held))
        ≡ some (request (action_kind_from_name action) action held)
      → parse_on_hit_items act (request_items numbers actions) ≡ some (actions, [])
      → parse_on_hit_items act (
          request_items numbers
            (more_requests (request (action_kind_from_name action) action held) actions))
        ≡ some (more_requests (request (action_kind_from_name action) action held) actions, [])
  unfolding parse_on_hit_items request_items
  actions_step act action held actions h e k =
      ap (λ j. parse_on_hit_action act j (parse_on_hit_items act (request_items numbers actions)))
        (to_json_lem action held)
      ∙ item_lem act (payload_members numbers held (named action)) _ action _ actions
          (name_read action held) h (ap act (sym (to_json_lem action held)) ∙ e) k
