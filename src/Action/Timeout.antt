-- ===== src/Action/Timeout.antt =====
-- with_timeout_defaults of src/cli/action.cpp.
pub mod Laws
use gdb_cli_tools.Prelude.{Bool, true, ◌&&◌, if◌then◌else◌}
use gdb_cli_tools.Task.Load.{ℤ}
use gdb_cli_tools.Action.{
  ActionRequest, request, ActionPayload, timeout_payload, frame_select_payload, evaluate_payload,
  run_payload, continue_payload, raw_mi_payload,
}
use gdb_cli_tools.Action.Export.{is_positive}

-- The time limit that a payload has afterwards.
abbrev pub or_default : Bool → ℤ → ℤ → ℤ
or_default set own default = if set then own else default

unfoldable pub payload_defaults : ℤ → ActionPayload → ActionPayload
payload_defaults ms (timeout_payload own set) = timeout_payload (or_default set own ms) true
payload_defaults ms (frame_select_payload frame own set) =
    frame_select_payload frame (or_default set own ms) true
payload_defaults ms (evaluate_payload expression own set) =
    evaluate_payload expression (or_default set own ms) true
payload_defaults ms (run_payload own set stdin_path) =
    run_payload (or_default (set && is_positive own) own ms) true stdin_path
payload_defaults ms (continue_payload own set) = continue_payload (or_default set own ms) true
payload_defaults ms (raw_mi_payload command risk own set) =
    raw_mi_payload command risk (or_default set own ms) true
payload_defaults ms payload = payload

unfoldable pub with_timeout_defaults : ActionRequest → ℤ → ActionRequest
unfolding payload_defaults
with_timeout_defaults (request kind action payload) ms =
    request kind action (payload_defaults ms payload)
