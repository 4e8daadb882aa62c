-- ===== src/Action/Export/Probes.antt =====
-- parse_payload behind payload_members, for the payloads that hold requests.
use gdb_cli_tools.Prelude.{
  ◌≡◌, sym, ap, ◌∙◌, inl, inr, Option, none, some, [], Bool-cases, Bytes, codes, same,
}
use gdb_cli_tools.Json.Value.{Json, Members, object, find_member, find}
use gdb_cli_tools.Action.{
  ActionRequest, request, OnHitPolicyRequest, not_configured, configured, ProbeTexts,
  breakpoint_set_payload, watchpoint_set_payload, catchpoint_set_payload, save_action_payload_with,
}
use gdb_cli_tools.Action.Kind.{ActionKind}
use gdb_cli_tools.Action.Fields.{Numbers, find_present}
use gdb_cli_tools.Action.Policy.{parse_on_hit_policy}
use gdb_cli_tools.Action.Parse.{parse_payload, selector_of, saved_fields}
use gdb_cli_tools.Action.Export.{
  put_on_hit, payload_members, put_probe_texts, action_request_to_json,
}
use gdb_cli_tools.Action.Export.Lookup.{lookups}
use gdb_cli_tools.Action.Export.Payloads.{named, Reads}

module _ {N : Type 0} (numbers : Numbers N) (from_chars : Bytes → Option N) where
  selector_of-absent :
      (m : Members N) (event : Bytes)
      → find_member (codes "name") m ≡ none
      → find_member (codes "syscall") m ≡ none
      → selector_of numbers (object m) event ≡ []
  unfolding selector_of
  selector_of-absent m event e h = elim (Bool-cases (same event (codes "syscall"))) [
    | inl a ↦ rw (selector_of, a, find_present, e, h)
    | inr a ↦ rw (selector_of, a)
  ]

  module _ (act : Json N → Option ActionRequest) where
    pub breakpoint_lem :
        (action : Bytes) (texts : ProbeTexts) (on_hit : OnHitPolicyRequest)
        → parse_on_hit_policy numbers act (
            object (
              put_on_hit numbers on_hit
                (put_probe_texts (codes "location") (codes "condition") texts (named action))))
          ≡ some on_hit
        → Reads numbers from_chars act action ActionKind.breakpoint_set
            (breakpoint_set_payload texts on_hit)
    unfolding parse_payload payload_members put_probe_texts
    breakpoint_lem action texts not_configured e = simp (e, lookups)
    breakpoint_lem action texts (configured actions limits error) e = simp (e, lookups)

    pub watchpoint_lem :
        (action : Bytes) (texts : ProbeTexts) (on_hit : OnHitPolicyRequest)
        → parse_on_hit_policy numbers act (
            object (
              put_on_hit numbers on_hit
                (put_probe_texts (codes "expression") (codes "condition") texts (named action))))
          ≡ some on_hit
        → Reads numbers from_chars act action ActionKind.watchpoint_set
            (watchpoint_set_payload texts on_hit)
    unfolding parse_payload payload_members put_probe_texts
    watchpoint_lem action texts not_configured e = simp (e, lookups)
    watchpoint_lem action texts (configured actions limits error) e = simp (e, lookups)

    -- The selector of a catchpoint is not read back: it is written under another key than the two
    -- that the reader looks up.
    pub catchpoint_reads :
        (action : Bytes) (texts : ProbeTexts) (on_hit : OnHitPolicyRequest)
        → parse_on_hit_policy numbers act (
            object (
              put_on_hit numbers on_hit
                (put_probe_texts (codes "event") (codes "selector") texts (named action))))
          ≡ some on_hit
        → parse_payload numbers from_chars act
            (object (payload_members numbers (catchpoint_set_payload texts on_hit) (named action)))
            ActionKind.catchpoint_set
          ≡ some (catchpoint_set_payload (record texts { detail = [] }) on_hit)
    unfolding parse_payload payload_members put_probe_texts
    catchpoint_reads action texts not_configured e =
        let m : Members N =
          put_probe_texts (codes "event") (codes "selector") texts (named action) in
        simp (e, lookups, selector_of-absent m texts.place (simp lookups) (simp lookups))
    catchpoint_reads action texts (configured actions limits error) e =
        let m : Members N =
          put_on_hit numbers (configured actions limits error)
            (put_probe_texts (codes "event") (codes "selector") texts (named action)) in
        simp (e, lookups, selector_of-absent m texts.place (simp lookups) (simp lookups))

    pub catchpoint_lem :
        (action : Bytes) (texts : ProbeTexts) (on_hit : OnHitPolicyRequest)
        → texts.detail ≡ []
        → parse_on_hit_policy numbers act (
            object (
              put_on_hit numbers on_hit
                (put_probe_texts (codes "event") (codes "selector") texts (named action))))
          ≡ some on_hit
        → Reads numbers from_chars act action ActionKind.catchpoint_set
            (catchpoint_set_payload texts on_hit)
    catchpoint_lem action texts on_hit d e =
        catchpoint_reads action texts on_hit e
        ∙ ap (λ t. some (catchpoint_set_payload (record texts { detail = t }) on_hit)) (sym d)

    pub save_with_lem :
        (action n p : Bytes) (r : ActionRequest)
        → act (action_request_to_json numbers r) ≡ some r
        → Reads numbers from_chars act action ActionKind.save_action
            (save_action_payload_with n p r)
    unfolding parse_payload payload_members saved_fields find action_request_to_json
    save_with_lem action n p (request kind name held) e = simp (lookups, e)
