-- ===== src/Tests/Action.antt =====
-- Examples for requests and results. A double is an int.
use gdb_cli_tools.Prelude.{
  ◌≡◌, refl, inl, true, false, not, Option, none, some, [], ◌∷◌, ◌++◌, map, arith, Bytes, codes,
}
use gdb_cli_tools.Task.Load.{ℤ, pos, negsuc}
use gdb_cli_tools.Task.Env.{lines_of}
use gdb_cli_tools.Action.{
  ActionRequest, request, breakpoint_set_payload, timeout_payload, run_payload, configured,
  no_requests, more_requests, default_limits, ProbeTexts, catchpoint_set_payload, not_configured,
}
use gdb_cli_tools.Action.Kind
use gdb_cli_tools.Action.Kind.{action_kind_from_name}
use gdb_cli_tools.Action.Fields.{Numbers}
use gdb_cli_tools.Action.Parse.{parse_action_request}
use gdb_cli_tools.Action.Export.{action_request_to_json, is_positive, same_int}
use gdb_cli_tools.Action.Export.Canonical.{
  depth, IsCanonical, IsPayload, IsPolicy, AreActions, TakesTimeout,
}
use gdb_cli_tools.Action.Export.RoundTrip.{
  parse_action_request-action_request_to_json, catchpoint_selector_lem,
}
use gdb_cli_tools.Action.Result.{ActionOutput, success, failure, action_output_text}
use gdb_cli_tools.Action.Result.Lines.{result_text, lines_of-action_output_text}
use gdb_cli_tools.Action.Timeout.{with_timeout_defaults}
use gdb_cli_tools.Action.Timeout.Laws.{with_timeout_defaults_twice}

abbrev ints : Numbers ℤ
ints = record {
  to_int = λ z. z;
  of_int = λ z. z;
  to_long = λ z. z;
  of_long = λ z. z;
  equal = same_int;
  at_most_zero = λ z. not (is_positive z);
}

abbrev no_number : Bytes → Option ℤ
no_number s = none

positive_lem : (z : ℤ) → is_positive z ≡ true → not (is_positive z) ≡ false
positive_lem z h = rw h

abbrev in_main : ProbeTexts
in_main = record {
  place = codes "main";
  detail = codes "argc > 1";
  comment = [];
  purpose = codes "entry";
}

-- A breakpoint whose hits run locals.
abbrev breakpoint : ActionRequest
breakpoint = request Kind.breakpoint_set (codes "breakpoint_set") (
    breakpoint_set_payload in_main (
      configured
        (more_requests (request Kind.locals (codes "locals") (timeout_payload (pos 7) true))
          no_requests)
        default_limits []))

breakpoint-IsCanonical : IsCanonical breakpoint
unfolding action_kind_from_name
breakpoint-IsCanonical = IsCanonical.of_name (codes "breakpoint_set") (
    IsPayload.breakpoint_for in_main (
      IsPolicy.configured_ok default_limits
        (AreActions.more_of (codes "locals") refl
          (IsCanonical.of_name (codes "locals")
            (IsPayload.timeout_for TakesTimeout.locals_takes (pos 7) true (inl refl)))
          AreActions.none_of)
        (record { time = refl; output = refl; lines = refl; policy = refl })))

parse_action_request-action_request_to_json_example :
    parse_action_request ints no_number 2 (action_request_to_json ints breakpoint) ≡ some breakpoint
unfolding depth
parse_action_request-action_request_to_json_example =
    parse_action_request-action_request_to_json ints no_number (λ z. refl) positive_lem breakpoint
      breakpoint-IsCanonical 2 (omega arith)

abbrev on_open : ProbeTexts
on_open = record { place = codes "syscall"; detail = codes "openat"; comment = []; purpose = [] }

catchpoint_selector_lem_example :
    parse_action_request ints no_number 1 (
      action_request_to_json ints (
        request Kind.catchpoint_set
          (codes "catchpoint_set")
          (catchpoint_set_payload on_open not_configured)))
    ≡ some (
        request Kind.catchpoint_set
          (codes "catchpoint_set")
          (catchpoint_set_payload (record on_open { detail = [] }) not_configured))
catchpoint_selector_lem_example = catchpoint_selector_lem ints no_number on_open 0

abbrev run_request : ActionRequest
run_request = request Kind.run (codes "run") (run_payload (negsuc 0) false [])

with_timeout_defaults_twice_example :
    with_timeout_defaults (with_timeout_defaults run_request (pos 9)) (pos 5)
    ≡ with_timeout_defaults run_request (pos 9)
with_timeout_defaults_twice_example = with_timeout_defaults_twice run_request (pos 9) (pos 5) refl

abbrev output : ActionOutput
output = record {
  prelude = success Kind.locals (codes "locals") ∷ [];
  final = failure Kind.run (codes "run") (codes "no\nprogram");
}

abbrev no_digits : ℤ → Bytes
no_digits z = []

lines_of-action_output_text_example :
    lines_of (action_output_text (λ z. z) no_digits output)
    ≡ map (result_text (λ z. z) no_digits (λ z. refl)) output.prelude
      ++ result_text (λ z. z) no_digits (λ z. refl) output.final ∷ []
lines_of-action_output_text_example =
    lines_of-action_output_text (λ z. z) no_digits (λ z. refl) output
