-- ===== src/Action/Export/Limits.antt =====
-- parse_payload behind payload_members, for the payloads that hold numbers.
use gdb_cli_tools.Prelude.{
  ◌≡◌, refl, sym, ap, ◌∙◌, inl, inr, Bool, true, false, not, ◌||◌, Option, none, some,
  if◌then◌else◌, ==_refl, Bytes, codes, same, same_refl,
}
use gdb_cli_tools.Task.Load.{ℤ, pos, negsuc}
use gdb_cli_tools.Json.Value.{Json, Members, string, object, find_member}
use gdb_cli_tools.Action.{
  ActionRequest, timeout_payload, frame_select_payload, evaluate_payload, probe_mutation_payload,
  run_payload, continue_payload, raw_mi_payload,
}
use gdb_cli_tools.Action.Kind.{ActionKind}
use gdb_cli_tools.Action.Fields.{Numbers, assign_member, has_field, int_field}
use gdb_cli_tools.Action.Parse.{parse_payload, timeout_of}
use gdb_cli_tools.Action.Export.{
  same_int, is_positive, put_text, put_time, put_timeout, payload_members, json_number,
}
use gdb_cli_tools.Action.Export.Lookup.{
  find_member-put_time, KeepsInts, lookups, has_field-present, int_field-present,
}
use gdb_cli_tools.Action.Export.Canonical.{Timed, TakesTimeout, TakesNumber}
use gdb_cli_tools.Action.Export.Payloads.{named, Reads}

-- A limit is written where it is set, when it is the default otherwise.
set_or_limit_lem :
    (set : Bool) (z : ℤ) (default : ℤ)
    → Timed set z default
    → (set || not (same_int z default)) ≡ set
set_or_limit_lem true z default h = refl
set_or_limit_lem false z default (inl h) = cc
set_or_limit_lem false (pos n) default (inr h) = rw (sym h) (ap not (==_refl n))
set_or_limit_lem false (negsuc n) default (inr h) = rw (sym h) (ap not (==_refl n))

set_or_positive_lem : (set : Bool) (z : ℤ) → Timed set z (negsuc 0) → (set || is_positive z) ≡ set
set_or_positive_lem true z h = refl
set_or_positive_lem false z (inl h) = cc
set_or_positive_lem false z (inr h) = rw h

module _ {N : Type 0} (numbers : Numbers N) (from_chars : Bytes → Option N)
    (act : Json N → Option ActionRequest) (keeps : KeepsInts numbers) where
  -- A time limit that is written last, behind members that hold neither it nor params.
  limit_lem :
      (key : Bytes) (m : Members N) (set : Bool) (test : Bool) (z default : ℤ)
      → same key (codes "params") ≡ false
      → find_member (codes "params") m ≡ none
      → find_member key m ≡ none
      → test ≡ set
      → Timed set z default
      → (int_field numbers (object (put_time numbers key test z m)) key default ≡ z)
        × (has_field (object (put_time numbers key test z m)) key ≡ set)
  limit_lem key m set test z default other p q e h =
      let params : find_member (codes "params") (put_time numbers key test z m) ≡ none =
        find_member-put_time numbers (codes "params") key test z m ∙ rw (other, p) in
      let own : find_member key (put_time numbers key test z m)
          ≡ (if set then some (json_number numbers z) else none) =
        find_member-put_time numbers key key test z m ∙ rw (same_refl key, q, e) in
      (
        int_field-present numbers key _ set z default keeps params own h,
        has_field-present key _ (json_number numbers z) set params own,
      )

  pub timeout_lem :
      (m : Members N) (z : ℤ) (set : Bool)
      → find_member (codes "params") m ≡ none
      → find_member (codes "timeout_ms") m ≡ none
      → Timed set z (pos 5000)
      → (timeout_of numbers (object (put_timeout numbers z set m)) ≡ z)
        × (has_field (object (put_timeout numbers z set m)) (codes "timeout_ms") ≡ set)
  unfolding timeout_of put_timeout
  timeout_lem m z set p q h =
      limit_lem (codes "timeout_ms") m set _ z (pos 5000) refl p q
        (set_or_limit_lem set z (pos 5000) h) h

  query_lem :
      (action : Bytes) (z : ℤ) (set : Bool)
      → Timed set z (pos 5000)
      → some (
          timeout_payload
            (timeout_of numbers (object (put_timeout numbers z set (named action))))
            (has_field (object (put_timeout numbers z set (named action))) (codes "timeout_ms")))
        ≡ some (timeout_payload z set)
  query_lem action z set h =
      let t = timeout_lem (named action) z set (simp lookups) (simp lookups) h in rw (t.0, t.1)

  pub timeouts_lem :
      (action : Bytes) (kind : ActionKind)
      → TakesTimeout kind
      → (z : ℤ) (set : Bool) → Timed set z (pos 5000)
      → Reads numbers from_chars act action kind (timeout_payload z set)
  unfolding parse_payload payload_members
  timeouts_lem action kind TakesTimeout.backtrace_takes z set h = query_lem action z set h
  timeouts_lem action kind TakesTimeout.locals_takes z set h = query_lem action z set h
  timeouts_lem action kind TakesTimeout.registers_takes z set h = query_lem action z set h
  timeouts_lem action kind TakesTimeout.threads_takes z set h = query_lem action z set h
  timeouts_lem action kind TakesTimeout.args_info_takes z set h = query_lem action z set h

  probe_number_lem :
      (action : Bytes) (z : ℤ)
      → int_field numbers
          (object (assign_member (codes "number") (json_number numbers z) (named action)))
          (codes "number")
          (negsuc 0)
        ≡ z
  probe_number_lem action z =
      int_field-present numbers (codes "number")
        (assign_member (codes "number") (json_number numbers z) (named action)) true z (negsuc 0)
        keeps (simp lookups) (simp lookups) (inl refl)

  pub numbers_lem :
      (action : Bytes) (kind : ActionKind)
      → TakesNumber kind
      → (z : ℤ) → Reads numbers from_chars act action kind (probe_mutation_payload z)
  unfolding parse_payload payload_members
  numbers_lem action kind TakesNumber.probe_enable_takes z = rw (probe_number_lem action z)
  numbers_lem action kind TakesNumber.probe_disable_takes z = rw (probe_number_lem action z)
  numbers_lem action kind TakesNumber.probe_delete_takes z = rw (probe_number_lem action z)

  pub evaluate_lem :
      (action e : Bytes) (z : ℤ) (set : Bool)
      → Timed set z (pos 5000)
      → Reads numbers from_chars act action ActionKind.evaluate (evaluate_payload e z set)
  unfolding parse_payload payload_members put_timeout
  evaluate_lem action e z set h =
      let t =
        timeout_lem (assign_member (codes "expression") (string e) (named action)) z set
          (simp lookups) (simp lookups) h in
      simp (lookups, t.0, t.1)

  pub frame_select_lem :
      (action : Bytes) (frame z : ℤ) (set : Bool)
      → Timed set z (pos 5000)
      → Reads numbers from_chars act action ActionKind.frame_select
          (frame_select_payload frame z set)
  unfolding parse_payload payload_members put_timeout
  frame_select_lem action frame z set h =
      let m = assign_member (codes "frame") (json_number numbers frame) (named action) in
      let t = timeout_lem m z set (simp lookups) (simp lookups) h in
      let own =
        int_field-present numbers (codes "frame") (put_timeout numbers z set m) true frame (pos 0)
          keeps (simp lookups) (simp lookups) (inl refl) in
      simp (own, t.0, t.1)

  pub raw_mi_lem :
      (action c r : Bytes) (z : ℤ) (set : Bool)
      → Timed set z (pos 5000)
      → Reads numbers from_chars act action ActionKind.raw_mi (raw_mi_payload c r z set)
  unfolding parse_payload payload_members put_timeout
  raw_mi_lem action c r z set h =
      let m =
        assign_member (codes "risk") (string r)
          (assign_member (codes "command") (string c) (named action)) in
      let t = timeout_lem m z set (simp lookups) (simp lookups) h in simp (lookups, t.0, t.1)

  pub continue_lem :
      (action : Bytes) (z : ℤ) (set : Bool)
      → Timed set z (pos 30000)
      → Reads numbers from_chars act action ActionKind.continue (continue_payload z set)
  unfolding parse_payload payload_members
  continue_lem action z set h =
      let t =
        limit_lem (codes "deadline_ms") (named action) set _ z (pos 30000) refl (simp lookups)
          (simp lookups) (set_or_limit_lem set z (pos 30000) h) h in
      simp (t.0, t.1)

  pub run_lem :
      (action : Bytes) (z : ℤ) (set : Bool) (s : Bytes)
      → Timed set z (negsuc 0)
      → Reads numbers from_chars act action ActionKind.run (run_payload z set s)
  unfolding parse_payload payload_members
  run_lem action z set s h =
      let e = set_or_positive_lem set z h in
      let m =
        put_text (codes "stdin") s
          (put_time numbers (codes "deadline_ms") (set || is_positive z) z (named action)) in
      let params : find_member (codes "params") m ≡ none = simp lookups in
      let own : find_member (codes "deadline_ms") m
          ≡ (if set then some (json_number numbers z) else none) =
        simp (lookups, e) in
      simp (
        lookups,
        int_field-present numbers (codes "deadline_ms") m set z (negsuc 0) keeps params own h,
        has_field-present (codes "deadline_ms") m (json_number numbers z) set params own,
      )
