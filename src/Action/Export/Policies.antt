-- ===== src/Action/Export/Policies.antt =====
-- parse_on_hit_policy behind on_hit_policy_to_json, whatever reads the actions.
use gdb_cli_tools.Prelude.{
  ◌≡◌, refl, ap, Bool, true, false, Option, none, some, [], ◌∷◌, is_empty, Bytes, codes,
}
use gdb_cli_tools.Task.Load.{ℤ, pos}
use gdb_cli_tools.Json.Value.{
  Json, Items, Members, bool, array, object, find_member, string_or, bool_or,
}
use gdb_cli_tools.Action.{
  ActionRequest, not_configured, configured, ActionRequests, OnHitLimits, default_limits,
}
use gdb_cli_tools.Action.Fields.{Numbers, on_hit_json_from}
use gdb_cli_tools.Action.Policy.{
  positive_field, limit_fields, output_field, lines_field, failure_policy_field, policy_flag,
  valid_on_hit_failure_policy, parse_on_hit_items, policy_from, parse_on_hit_policy, object_policy,
}
use gdb_cli_tools.Action.Export.{
  is_positive, put_on_hit, policy_members, request_items, json_number,
}
use gdb_cli_tools.Action.Export.Lookup.{
  find_member-assign_member, KeepsInts, lookups, params_of-none,
}
use gdb_cli_tools.Action.Export.Canonical.{IsUsable}

-- A positive int is turned into a positive double.
abbrev pub KeepsSign : {N : Type 0} → Numbers N → Type 0
KeepsSign numbers = (z : ℤ) → is_positive z ≡ true → numbers.at_most_zero (numbers.of_int z) ≡ false

named_policy :
    (policy : Bytes) → valid_on_hit_failure_policy policy ≡ true → is_empty policy ≡ false
named_policy [] h = cc
named_policy (c ∷ policy) h = refl

bool_or-found :
    {N : Type 0} (key : Bytes) (m : Members N) (b : Bool)
    → find_member key m ≡ some (bool b)
    → bool_or (object m) key false ≡ b
unfolding bool_or
bool_or-found key m b e = rw (bool_or, e)

module _ {N : Type 0} (numbers : Numbers N) (keeps : KeepsInts numbers)
    (signs : KeepsSign numbers) where
  positive_field-present :
      (key : Bytes) (m : Members N) (z fallback : ℤ)
      → find_member key m ≡ some (json_number numbers z)
      → is_positive z ≡ true
      → positive_field numbers (object m) key fallback ≡ some z
  unfolding positive_field
  positive_field-present key m z fallback e h =
      rw (positive_field, e, signs z h) (ap some (keeps z))

  policy_text :
      (items : Items N) (limits : OnHitLimits)
      → string_or (object (policy_members numbers items limits)) (codes "failure_policy") []
        ≡ limits.failure_policy
  unfolding policy_members
  policy_text items limits = simp lookups

  policy_actions :
      (items : Items N) (limits : OnHitLimits)
      → find_member (codes "actions") (policy_members numbers items limits) ≡ some (array items)
  unfolding policy_members
  policy_actions items limits = simp lookups

  limit_fields-policy_members :
      (items : Items N) (limits : OnHitLimits)
      → IsUsable limits
      → limit_fields numbers (object (policy_members numbers items limits)) default_limits
        ≡ (limits, [])
  unfolding limit_fields output_field lines_field failure_policy_field policy_flag policy_members
  limit_fields-policy_members items limits h =
      let m = policy_members numbers items limits in
      rw (
        limit_fields,
        positive_field-present (codes "timeout_ms") m limits.timeout_ms (pos 5000) (simp lookups)
            h.time,
        output_field,
        positive_field-present (codes "max_output_bytes") m limits.max_output_bytes (pos 8192)
            (simp lookups) h.output,
        lines_field,
        positive_field-present (codes "max_summary_lines") m limits.max_summary_lines (pos 80)
            (simp lookups) h.lines,
        failure_policy_field,
        policy_text items limits,
        named_policy limits.failure_policy h.policy,
        h.policy,
        policy_flag,
        bool_or-found (codes "continue_after_hit") m limits.continue_after_hit (simp lookups),
      )

  -- The policy of an object whose actions are read back.
  object_policy-policy_members :
      (act : Json N → Option ActionRequest) (actions : ActionRequests) (limits : OnHitLimits)
      → IsUsable limits
      → parse_on_hit_items act (request_items numbers actions) ≡ some (actions, [])
      → object_policy numbers act
          (object (policy_members numbers (request_items numbers actions) limits))
        ≡ some (configured actions limits [])
  unfolding object_policy
  object_policy-policy_members act actions limits h e = rw (
    object_policy,
    policy_actions (request_items numbers actions) limits,
    e,
    limit_fields-policy_members (request_items numbers actions) limits h,
  )

  pub policy_lem :
      (act : Json N → Option ActionRequest) (actions : ActionRequests) (limits : OnHitLimits)
      (m : Members N)
      → IsUsable limits
      → parse_on_hit_items act (request_items numbers actions) ≡ some (actions, [])
      → parse_on_hit_policy numbers act
          (object (put_on_hit numbers (configured actions limits []) m))
        ≡ some (configured actions limits [])
  unfolding parse_on_hit_policy put_on_hit
  policy_lem act actions limits m h e =
      let written =
        find_member-assign_member (codes "on_hit") (codes "on_hit")
          (object (policy_members numbers (request_items numbers actions) limits)) m in
      rw (parse_on_hit_policy, on_hit_json_from, written, policy_from)
        (object_policy-policy_members act actions limits h e)

module _ {N : Type 0} (numbers : Numbers N) where
  pub no_policy_lem :
      (act : Json N → Option ActionRequest) (m : Members N)
      → find_member (codes "params") m ≡ none
      → find_member (codes "on_hit") m ≡ none
      → parse_on_hit_policy numbers act (object m) ≡ some not_configured
  unfolding parse_on_hit_policy
  no_policy_lem act m p e = rw (parse_on_hit_policy, on_hit_json_from, e, params_of-none m p)
