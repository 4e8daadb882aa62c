-- ===== src/Action/Export/Payloads.antt =====
-- What it means that a payload is read back, and parse_payload behind payload_members for the
-- payloads of texts and flags.
use gdb_cli_tools.Prelude.{
  ◌≡◌, refl, sym, subst, inl, inr, Bool, true, false, Option, none, some, [], ◌∷◌, if◌then◌else◌,
  Bool-cases, is_empty, Bytes, codes, same, same→eq,
}
use gdb_cli_tools.Json.Value.{Json, Members, bool, string, object, no_members, find_member, find}
use gdb_cli_tools.Action.{
  ActionRequest, ActionPayload, no_payload, finish_payload, hypothesis_create_payload,
  hypothesis_check_payload, hypothesis_conclude_payload, save_action_payload, replay_payload,
  record_start_payload, HypothesisCheckPayload, ReplayPayload,
}
use gdb_cli_tools.Action.Kind.{ActionKind}
use gdb_cli_tools.Action.Fields.{Numbers, assign_member}
use gdb_cli_tools.Action.Parse.{
  parse_payload, finish_fields, conclude_fields, check_fields, replay_fields, saved_fields,
  force_of,
}
use gdb_cli_tools.Action.Export.{put_text, put_flag, put_check, put_replay, payload_members}
use gdb_cli_tools.Action.Export.Lookup.{lookups, bool_or-present, params_of-none}
use gdb_cli_tools.Action.Export.Canonical.{TakesNothing}

-- The members that stand in front of a payload's.
abbrev pub named : {N : Type 0} → Bytes → Members N
named action = assign_member (codes "action") (string action) no_members

module _ {N : Type 0} (numbers : Numbers N) (from_chars : Bytes → Option N)
    (act : Json N → Option ActionRequest) where
  abbrev pub Reads : Bytes → ActionKind → ActionPayload → Type 0
  Reads action kind payload =
      parse_payload numbers from_chars act (object (payload_members numbers payload (named action)))
        kind
      ≡ some payload

  pub nothing_lem :
      (action : Bytes) (kind : ActionKind) → TakesNothing kind → Reads action kind no_payload
  unfolding parse_payload payload_members
  nothing_lem action kind TakesNothing.unknown_takes = refl
  nothing_lem action kind TakesNothing.probe_list_takes = refl
  nothing_lem action kind TakesNothing.record_status_takes = refl
  nothing_lem action kind TakesNothing.record_stop_takes = refl
  nothing_lem action kind TakesNothing.record_discard_takes = refl

  pub create_lem :
      (action i t d : Bytes)
      → Reads action ActionKind.hypothesis_create (hypothesis_create_payload i t d)
  unfolding parse_payload payload_members
  create_lem action i t d = simp lookups

  pub finish_lem :
      (action i c : Bytes) → Reads action ActionKind.finish_session (finish_payload i c)
  unfolding parse_payload payload_members finish_fields
  finish_lem action i [] = simp lookups
  finish_lem action i (d ∷ c) = simp lookups

  pub conclude_lem :
      (action h c i : Bytes)
      → is_empty c ≡ false
      → Reads action ActionKind.hypothesis_conclude (hypothesis_conclude_payload h c i)
  unfolding parse_payload payload_members conclude_fields
  conclude_lem action h [] i e = cc
  conclude_lem action h (d ∷ c) i e = simp lookups

  pub save_lem :
      (action n p : Bytes) → Reads action ActionKind.save_action (save_action_payload n p)
  unfolding parse_payload payload_members saved_fields find
  save_lem action n p = simp lookups

  pub check_lem :
      (action : Bytes) (payload : HypothesisCheckPayload)
      → is_empty payload.assertion ≡ false
      → Reads action ActionKind.hypothesis_check (hypothesis_check_payload payload)
  unfolding parse_payload payload_members check_fields put_check
  check_lem action payload e = elim (Bool-cases (same payload.assertion (codes "none"))) [
    | inl a ↦
        subst
          (λ t.
            Reads action ActionKind.hypothesis_check
              (hypothesis_check_payload (record payload { assertion = t })))
          (sym (same→eq payload.assertion (codes "none") a)) (simp lookups)
    | inr a ↦ simp (lookups, a, e)
  ]

  pub record_start_lem :
      (action n p : Bytes) (raw : Bool)
      → Reads action ActionKind.record_start (record_start_payload n p raw)
  unfolding parse_payload payload_members
  record_start_lem action n p raw =
      let m : Members N =
        put_flag (codes "include_raw_mi") raw
          (put_text (codes "failure_policy") p (put_text (codes "name") n (named action))) in
      simp (lookups, bool_or-present (codes "include_raw_mi") m raw (simp lookups))

  force_lem :
      (m : Members N) (b : Bool)
      → find_member (codes "params") m ≡ none
      → find_member (codes "force") m ≡ (if b then some (bool true) else none)
      → force_of (object m) ≡ b
  unfolding force_of
  force_lem m b p e = rw (force_of, params_of-none m p) (bool_or-present (codes "force") m b e)

  pub replay_lem :
      (action : Bytes) (payload : ReplayPayload)
      → Reads action ActionKind.replay (replay_payload payload)
  unfolding parse_payload payload_members replay_fields put_replay
  replay_lem action payload =
      let m : Members N = put_replay payload (named action) in
      let params : find_member (codes "params") m ≡ none = simp lookups in
      let own : find_member (codes "force") m ≡ (if payload.force then some (bool true) else none) =
        simp lookups in
      simp (lookups, force_lem m payload.force params own)
