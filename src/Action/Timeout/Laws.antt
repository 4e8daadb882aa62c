-- ===== src/Action/Timeout/Laws.antt =====
-- What with_timeout_defaults of src/cli/action.cpp leaves behind.
use gdb_cli_tools.Prelude.{◌≡◌, refl, ap, inl, inr, Bool, true, false, ◌&&◌, Bool-cases}
use gdb_cli_tools.Task.Load.{ℤ}
use gdb_cli_tools.Action.{
  ActionRequest, request, ActionPayload, no_payload, timeout_payload, finish_payload,
  frame_select_payload, evaluate_payload, breakpoint_set_payload, watchpoint_set_payload,
  catchpoint_set_payload, probe_mutation_payload, run_payload, continue_payload, raw_mi_payload,
  hypothesis_create_payload, hypothesis_check_payload, hypothesis_conclude_payload,
  save_action_payload, save_action_payload_with, replay_payload, record_start_payload,
}
use gdb_cli_tools.Action.Kind.{ActionKind}
use gdb_cli_tools.Action.Export.{is_positive}
use gdb_cli_tools.Action.Export.Canonical.{IsCanonical, IsPayload}
use gdb_cli_tools.Action.Timeout.{or_default, payload_defaults, with_timeout_defaults}

and_right : (b c : Bool) → (b && c) ≡ true → c ≡ true
and_right true c e = e
and_right false c e = cc

run_again :
    (set : Bool) (own a b : ℤ)
    → is_positive a ≡ true
    → or_default
        (true && is_positive (or_default (set && is_positive own) own a))
        (or_default (set && is_positive own) own a)
        b
      ≡ or_default (set && is_positive own) own a
run_again set own a b h = elim (Bool-cases (set && is_positive own)) [
  | inl e ↦ rw e (rw (and_right set (is_positive own) e))
  | inr e ↦ rw (e, h)
]

defaults_again :
    (a b : ℤ) (held : ActionPayload)
    → is_positive a ≡ true
    → payload_defaults b (payload_defaults a held) ≡ payload_defaults a held
unfolding payload_defaults
defaults_again a b no_payload positive = refl
defaults_again a b (timeout_payload z set) positive = refl
defaults_again a b (frame_select_payload f z set) positive = refl
defaults_again a b (evaluate_payload e z set) positive = refl
defaults_again a b (continue_payload z set) positive = refl
defaults_again a b (raw_mi_payload c r z set) positive = refl
defaults_again a b (breakpoint_set_payload t o) positive = refl
defaults_again a b (watchpoint_set_payload t o) positive = refl
defaults_again a b (catchpoint_set_payload t o) positive = refl
defaults_again a b (probe_mutation_payload z) positive = refl
defaults_again a b (hypothesis_create_payload i t d) positive = refl
defaults_again a b (hypothesis_check_payload p) positive = refl
defaults_again a b (hypothesis_conclude_payload h c i) positive = refl
defaults_again a b (save_action_payload n p) positive = refl
defaults_again a b (save_action_payload_with n p r) positive = refl
defaults_again a b (replay_payload p) positive = refl
defaults_again a b (record_start_payload n p r) positive = refl
defaults_again a b (finish_payload i c) positive = refl
defaults_again a b (run_payload z set s) positive =
    ap (λ own. run_payload own true s) (run_again set z a b positive)

-- The limits that a positive default fills in are final: a second default changes nothing.
pub with_timeout_defaults_twice :
    (r : ActionRequest) (a b : ℤ)
    → is_positive a ≡ true
    → with_timeout_defaults (with_timeout_defaults r a) b ≡ with_timeout_defaults r a
unfolding with_timeout_defaults
with_timeout_defaults_twice (request kind action held) a b h =
    ap (λ p. request kind action p) (defaults_again a b held h)

payload_defaults-IsPayload :
    (ms : ℤ) {kind : ActionKind} {held : ActionPayload}
    → IsPayload kind held
    → IsPayload kind (payload_defaults ms held)
unfolding payload_defaults
payload_defaults-IsPayload ms (IsPayload.timeout_for k z set t) =
    IsPayload.timeout_for k (or_default set z ms) true (inl refl)
payload_defaults-IsPayload ms (IsPayload.frame_select_for f z set t) =
    IsPayload.frame_select_for f (or_default set z ms) true (inl refl)
payload_defaults-IsPayload ms (IsPayload.evaluate_for e z set t) =
    IsPayload.evaluate_for e (or_default set z ms) true (inl refl)
payload_defaults-IsPayload ms (IsPayload.run_for z set s t) =
    IsPayload.run_for (or_default (set && is_positive z) z ms) true s (inl refl)
payload_defaults-IsPayload ms (IsPayload.continue_for z set t) =
    IsPayload.continue_for (or_default set z ms) true (inl refl)
payload_defaults-IsPayload ms (IsPayload.raw_mi_for c r z set t) =
    IsPayload.raw_mi_for c r (or_default set z ms) true (inl refl)
payload_defaults-IsPayload ms (IsPayload.nothing_for k) = IsPayload.nothing_for k
payload_defaults-IsPayload ms (IsPayload.number_for k z) = IsPayload.number_for k z
payload_defaults-IsPayload ms (IsPayload.finish_for i c) = IsPayload.finish_for i c
payload_defaults-IsPayload ms (IsPayload.breakpoint_for t p) = IsPayload.breakpoint_for t p
payload_defaults-IsPayload ms (IsPayload.watchpoint_for t p) = IsPayload.watchpoint_for t p
payload_defaults-IsPayload ms (IsPayload.catchpoint_for t d p) = IsPayload.catchpoint_for t d p
payload_defaults-IsPayload ms (IsPayload.create_for i t d) = IsPayload.create_for i t d
payload_defaults-IsPayload ms (IsPayload.check_for p e) = IsPayload.check_for p e
payload_defaults-IsPayload ms (IsPayload.conclude_for h c i e) = IsPayload.conclude_for h c i e
payload_defaults-IsPayload ms (IsPayload.save_for n p) = IsPayload.save_for n p
payload_defaults-IsPayload ms (IsPayload.save_with_for n p h) = IsPayload.save_with_for n p h
payload_defaults-IsPayload ms (IsPayload.replay_for p) = IsPayload.replay_for p
payload_defaults-IsPayload ms (IsPayload.record_start_for n p raw) =
    IsPayload.record_start_for n p raw

-- A canonical request stays canonical when its time limit is filled in.
pub with_timeout_defaults-IsCanonical :
    (r : ActionRequest) (ms : ℤ) → IsCanonical r → IsCanonical (with_timeout_defaults r ms)
unfolding with_timeout_defaults
with_timeout_defaults-IsCanonical _ ms (IsCanonical.of_name action p) =
    IsCanonical.of_name action (payload_defaults-IsPayload ms p)
