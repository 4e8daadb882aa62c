-- ===== src/Action/Policy.antt =====
-- The on_hit policy of a request: parse_on_hit_action, parse_on_hit_actions_array and
-- parse_on_hit_policy of src/cli/action.cpp. `act` reads a request inside the policy; `none` is the
-- end of its fuel.
use gdb_cli_tools.Prelude.{
  Bool, false, ◌||◌, Option, none, some, [], ◌∷◌, if◌then◌else◌, is_empty, Bytes, codes, same,
}
use gdb_cli_tools.Task.Load.{ℤ}
use gdb_cli_tools.Json.Value.{
  Json, Items, null, number, array, object, no_items, item, find, string_or, bool_or,
}
use gdb_cli_tools.Action.{
  ActionRequest, OnHitPolicyRequest, not_configured, configured, ActionRequests, no_requests,
  more_requests, OnHitLimits, default_limits,
}
use gdb_cli_tools.Action.Fields.{Numbers, on_hit_json_from}

-- The actions that are read and the error text, empty where there is none.
abbrev pub Actions : Type 0
Actions = ActionRequests × Bytes

abbrev pub add_action : ActionRequest → Actions → Actions
add_action r (actions, error) = (more_requests r actions, error)

abbrev pub valid_on_hit_failure_policy : Bytes → Bool
valid_on_hit_failure_policy policy =
    same policy (codes "continue_on_error") || same policy (codes "stop_on_error")

-- The value that follows, where the value in front is there.
abbrev pub and_then : {A B : Type 0} → Option A → (A → Option B) → Option B
and_then none k = none
and_then (some a) k = k a

module _ {N : Type 0} (act : Json N → Option ActionRequest) where
  -- parse_on_hit_action on an item, with the items behind it: they are read after a good one only.
  unfoldable pub parse_on_hit_action : Json N → Option Actions → Option Actions
  unfolding string_or
  parse_on_hit_action (object m) rest =
      if same (string_or (object m) (codes "action") []) (codes "raw_mi")
      then some (no_requests, codes "on_hit raw_mi action is not allowed")
      else and_then (act (object m)) (λ r. and_then rest (λ actions. some (add_action r actions)))
  parse_on_hit_action _ rest = some (no_requests, codes "on_hit actions must be JSON objects")

  unfoldable pub parse_on_hit_items : Items N → Option Actions
  unfolding parse_on_hit_action
  parse_on_hit_items no_items = some (no_requests, [])
  parse_on_hit_items (item v items) = parse_on_hit_action v (parse_on_hit_items items)

  unfoldable pub parse_on_hit_actions_array : Json N → Option Actions
  unfolding parse_on_hit_items
  parse_on_hit_actions_array (array items) = parse_on_hit_items items
  parse_on_hit_actions_array _ = some (no_requests, codes "on_hit actions must be an array")

module _ {N : Type 0} where
  -- The fields of a policy object behind its actions: the limits, and the error of the first bad
  -- one, before which the earlier fields are already set.
  unfoldable pub policy_flag : Json N → OnHitLimits → OnHitLimits × Bytes
  unfolding bool_or
  policy_flag json limits =
      (record limits { continue_after_hit = bool_or json (codes "continue_after_hit") false }, [])

  unfoldable pub failure_policy_field : Json N → OnHitLimits → OnHitLimits × Bytes
  unfolding string_or policy_flag
  failure_policy_field json limits =
      let policy = string_or json (codes "failure_policy") [] in
      if is_empty policy
      then policy_flag json limits
      else if valid_on_hit_failure_policy policy
      then policy_flag json (record limits { failure_policy = policy })
      else (limits, codes "on_hit.failure_policy must be continue_on_error or stop_on_error")

module _ {N : Type 0} (numbers : Numbers N) where
  -- A limit of a policy: the number of a field that must be positive, `none` where it is not one.
  unfoldable pub positive_field : Json N → Bytes → ℤ → Option ℤ
  unfolding find
  positive_field json key fallback = elim (find json key) [
    | some value ↦ elim value [
      | number n ↦ if numbers.at_most_zero n then none else some (numbers.to_int n)
      | _ ↦ none
    ]
    | none ↦ some fallback
  ]

  unfoldable pub lines_field : Json N → OnHitLimits → OnHitLimits × Bytes
  unfolding positive_field failure_policy_field
  lines_field json limits =
      elim (positive_field json (codes "max_summary_lines") limits.max_summary_lines) [
        | some n ↦ failure_policy_field json (record limits { max_summary_lines = n })
        | none ↦ (limits, codes "on_hit.max_summary_lines must be a positive number")
      ]

  unfoldable pub output_field : Json N → OnHitLimits → OnHitLimits × Bytes
  unfolding positive_field lines_field
  output_field json limits =
      elim (positive_field json (codes "max_output_bytes") limits.max_output_bytes) [
        | some n ↦ lines_field json (record limits { max_output_bytes = n })
        | none ↦ (limits, codes "on_hit.max_output_bytes must be a positive number")
      ]

  unfoldable pub limit_fields : Json N → OnHitLimits → OnHitLimits × Bytes
  unfolding positive_field output_field
  limit_fields json limits = elim (positive_field json (codes "timeout_ms") limits.timeout_ms) [
    | some n ↦ output_field json (record limits { timeout_ms = n })
    | none ↦ (limits, codes "on_hit.timeout_ms must be a positive number")
  ]

  -- The policy of a policy object whose actions are read.
  unfoldable pub policy_of : Json N → Actions → OnHitPolicyRequest
  unfolding limit_fields
  policy_of json (actions, []) =
      let (limits, error) = limit_fields json default_limits in configured actions limits error
  policy_of json (actions, c ∷ error) = configured actions default_limits (c ∷ error)

  unfoldable pub object_policy :
      (Json N → Option ActionRequest) → Json N → Option OnHitPolicyRequest
  unfolding parse_on_hit_actions_array policy_of find
  object_policy act json = elim (find json (codes "actions")) [
    | some actions ↦
        and_then (parse_on_hit_actions_array act actions) (λ read. some (policy_of json read))
    | none ↦ some (policy_of json (no_requests, []))
  ]

  unfoldable pub policy_from : (Json N → Option ActionRequest) → Json N → Option OnHitPolicyRequest
  unfolding parse_on_hit_actions_array object_policy
  policy_from act null = some not_configured
  policy_from act (array items) =
      and_then (parse_on_hit_actions_array act (array items))
        (λ (actions, error). some (configured actions default_limits error))
  policy_from act (object m) = object_policy act (object m)
  policy_from act _ =
      some
        (configured no_requests default_limits (codes "on_hit must be an array or policy object"))

  unfoldable pub parse_on_hit_policy :
      (Json N → Option ActionRequest) → Json N → Option OnHitPolicyRequest
  unfolding on_hit_json_from policy_from
  parse_on_hit_policy act action = elim (on_hit_json_from action) [
    | some on_hit ↦ policy_from act on_hit
    | none ↦ some not_configured
  ]
