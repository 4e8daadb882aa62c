-- ===== src/Action/Parse.antt =====
-- parse_action_request of src/cli/action.cpp. A request is inside another one as an action of an
-- on_hit policy, as a saved action, or as the text of a saved action; `act` reads such a request.
-- `none` is the end of the fuel, which the code has no counterpart of.
use gdb_cli_tools.Prelude.{
  ℕ, zero, suc, Bool, false, Option, none, some, [], if◌then◌else◌, is_empty, Bytes, codes, same,
}
use gdb_cli_tools.Prelude.Parsed.{Parsed}
use gdb_cli_tools.Task.Load.{ℤ, pos, negsuc}
use gdb_cli_tools.Json.Value.{Json, string, object, find, string_or, bool_or}
use gdb_cli_tools.Json.Parse.{parse_json}
use gdb_cli_tools.Action.{
  ActionRequest, request, ActionPayload, no_payload, timeout_payload, finish_payload,
  frame_select_payload, evaluate_payload, breakpoint_set_payload, watchpoint_set_payload,
  catchpoint_set_payload, probe_mutation_payload, run_payload, continue_payload, raw_mi_payload,
  hypothesis_create_payload, hypothesis_check_payload, hypothesis_conclude_payload,
  save_action_payload, save_action_payload_with, replay_payload, record_start_payload, ProbeTexts,
}
use gdb_cli_tools.Action.Kind.{ActionKind, action_kind_from_name}
use gdb_cli_tools.Action.Policy.{and_then, parse_on_hit_policy}
use gdb_cli_tools.Action.Fields.{
  Numbers, string_field, params_of, has_field, find_present, int_field, selector_field,
}

-- text, or a fallback where it is empty.
abbrev pub or_text : Bytes → Bytes → Bytes
or_text text fallback = if is_empty text then fallback else text

module _ {N : Type 0} where
  abbrev pub sets_timeout : Json N → Bool
  sets_timeout json = has_field json (codes "timeout_ms")

  -- The texts of a breakpoint, a watchpoint and a catchpoint.
  abbrev pub probe_texts : Json N → Bytes → Bytes → ProbeTexts
  probe_texts json place detail = record {
    place = place;
    detail = detail;
    comment = string_field json (codes "comment");
    purpose = string_field json (codes "purpose");
  }

  unfoldable pub finish_fields : Json N → ActionPayload
  unfolding string_or
  finish_fields json = finish_payload (string_field json (codes "agent_inference")) (
      or_text (string_field json (codes "final_conclusion"))
        (string_field json (codes "final_agent_conclusion")))

  unfoldable pub check_fields : Json N → ActionPayload
  unfolding string_or
  check_fields json = hypothesis_check_payload (record {
    hypothesis = string_field json (codes "hypothesis");
    expression = string_field json (codes "expression");
    description = string_field json (codes "description");
    assertion = or_text (string_field json (codes "assertion")) (codes "none");
    expected = string_field json (codes "expected");
  })

  unfoldable pub conclude_fields : Json N → ActionPayload
  unfolding string_or
  conclude_fields json =
      hypothesis_conclude_payload (string_field json (codes "hypothesis"))
        (or_text (string_field json (codes "conclusion")) (codes "Inconclusive"))
        (string_field json (codes "inference"))

  unfoldable pub force_of : Json N → Bool
  unfolding params_of bool_or
  force_of json =
      let force = bool_or json (codes "force") false in
      elim (params_of json) [ some params ↦ bool_or params (codes "force") force | none ↦ force ]

  unfoldable pub replay_fields : Json N → ActionPayload
  unfolding string_or force_of
  replay_fields json = replay_payload (record {
    file = string_field json (codes "file");
    name = string_field json (codes "name");
    force = force_of json;
    failure_policy = string_field json (codes "failure_policy");
  })

module _ {N : Type 0} (numbers : Numbers N) where
  unfoldable pub timeout_of : Json N → ℤ
  unfolding int_field
  timeout_of json = int_field numbers json (codes "timeout_ms") (pos 5000)

  -- The selector of a syscall catchpoint.
  unfoldable pub selector_of : Json N → Bytes → Bytes
  unfolding find_present selector_field
  selector_of json event =
      if same event (codes "syscall")
      then elim (find_present json (codes "name")) [
        | some value ↦ selector_field numbers json (codes "name")
        | none ↦ elim (find_present json (codes "syscall")) [
          | some value ↦ selector_field numbers json (codes "syscall")
          | none ↦ []
        ]
      ]
      else []

module _ {N : Type 0} (numbers : Numbers N) (from_chars : Bytes → Option N) where
  -- A saved action that is a text: it is read where it is JSON and an object; an exception is dropped.
  unfoldable pub saved_text :
      (Json N → Option ActionRequest) → Parsed (Json N) → Bytes → Bytes → Option ActionPayload
  saved_text act (Parsed.ok (object m)) name policy =
      and_then (act (object m)) (λ r. some (save_action_payload_with name policy r))
  saved_text act (Parsed.ok _) name policy = some (save_action_payload name policy)
  saved_text act Parsed.failed name policy = some (save_action_payload name policy)
  saved_text act Parsed.out_of_fuel name policy = none

  unfoldable pub saved_fields :
      (Json N → Option ActionRequest) → Option (Json N) → Bytes → Bytes → Option ActionPayload
  unfolding saved_text parse_json
  saved_fields act (some (object m)) name policy =
      and_then (act (object m)) (λ r. some (save_action_payload_with name policy r))
  saved_fields act (some (string s)) name policy =
      saved_text act (parse_json from_chars s) name policy
  saved_fields act _ name policy = some (save_action_payload name policy)

  unfoldable pub parse_payload :
      (Json N → Option ActionRequest) → Json N → ActionKind → Option ActionPayload
  unfolding has_field int_field find string_or bool_or parse_on_hit_policy timeout_of selector_of
      finish_fields check_fields conclude_fields replay_fields saved_fields
  parse_payload act json ActionKind.finish_session = some (finish_fields json)
  parse_payload act json ActionKind.backtrace =
      some (timeout_payload (timeout_of numbers json) (sets_timeout json))
  parse_payload act json ActionKind.locals =
      some (timeout_payload (timeout_of numbers json) (sets_timeout json))
  parse_payload act json ActionKind.registers =
      some (timeout_payload (timeout_of numbers json) (sets_timeout json))
  parse_payload act json ActionKind.threads =
      some (timeout_payload (timeout_of numbers json) (sets_timeout json))
  parse_payload act json ActionKind.args_info =
      some (timeout_payload (timeout_of numbers json) (sets_timeout json))
  parse_payload act json ActionKind.frame_select = some (
      frame_select_payload (int_field numbers json (codes "frame") (pos 0))
        (timeout_of numbers json) (sets_timeout json))
  parse_payload act json ActionKind.evaluate = some (
      evaluate_payload (string_field json (codes "expression")) (timeout_of numbers json)
        (sets_timeout json))
  parse_payload act json ActionKind.breakpoint_set =
      and_then (parse_on_hit_policy numbers act json) (λ on_hit. some (
        breakpoint_set_payload
          (probe_texts json (string_field json (codes "location"))
            (string_field json (codes "condition")))
          on_hit))
  parse_payload act json ActionKind.watchpoint_set =
      and_then (parse_on_hit_policy numbers act json) (λ on_hit. some (
        watchpoint_set_payload
          (probe_texts json (string_field json (codes "expression"))
            (string_field json (codes "condition")))
          on_hit))
  parse_payload act json ActionKind.catchpoint_set =
      and_then (parse_on_hit_policy numbers act json) (λ on_hit. some (
        catchpoint_set_payload
          (probe_texts json (string_field json (codes "event"))
            (selector_of numbers json (string_field json (codes "event"))))
          on_hit))
  parse_payload act json ActionKind.probe_enable =
      some (probe_mutation_payload (int_field numbers json (codes "number") (negsuc 0)))
  parse_payload act json ActionKind.probe_disable =
      some (probe_mutation_payload (int_field numbers json (codes "number") (negsuc 0)))
  parse_payload act json ActionKind.probe_delete =
      some (probe_mutation_payload (int_field numbers json (codes "number") (negsuc 0)))
  parse_payload act json ActionKind.run = some (
      run_payload (int_field numbers json (codes "deadline_ms") (negsuc 0))
        (has_field json (codes "deadline_ms")) (string_field json (codes "stdin")))
  parse_payload act json ActionKind.continue = some (
      continue_payload (int_field numbers json (codes "deadline_ms") (pos 30000))
        (has_field json (codes "deadline_ms")))
  parse_payload act json ActionKind.raw_mi = some (
      raw_mi_payload (string_field json (codes "command")) (string_field json (codes "risk"))
        (timeout_of numbers json) (sets_timeout json))
  parse_payload act json ActionKind.hypothesis_create = some (
      hypothesis_create_payload (string_field json (codes "id")) (string_field json (codes "title"))
        (string_field json (codes "description")))
  parse_payload act json ActionKind.hypothesis_check = some (check_fields json)
  parse_payload act json ActionKind.hypothesis_conclude = some (conclude_fields json)
  parse_payload act json ActionKind.save_action =
      saved_fields act (find json (codes "saved_action")) (string_field json (codes "name"))
        (string_field json (codes "failure_policy"))
  parse_payload act json ActionKind.replay = some (replay_fields json)
  parse_payload act json ActionKind.record_start = some (
      record_start_payload (string_field json (codes "name"))
        (string_field json (codes "failure_policy")) (bool_or json (codes "include_raw_mi") false))
  parse_payload act json _ = some no_payload

  unfoldable pub parse_action_request : ℕ → Json N → Option ActionRequest
  unfolding action_kind_from_name string_or parse_payload
  parse_action_request zero json = none
  parse_action_request (suc fuel) json =
      let action = string_or json (codes "action") [] in
      let kind = action_kind_from_name action in
      and_then (parse_payload (parse_action_request fuel) json kind)
        (λ payload. some (request kind action payload))
