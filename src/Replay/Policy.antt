-- ===== src/Replay/Policy.antt =====
-- The failure policies of src/replay/replay_plan.cpp.
use gdb_cli_tools.Prelude.{
  ◌≡◌, refl, ◌↔◌, inl, inr, Bool, true, ◌||◌, if◌then◌else◌, Bool-cases, Bytes, codes, same,
}

abbrev pub policy_continue : Bytes
policy_continue = codes "continue_on_error"

abbrev pub policy_stop : Bytes
policy_stop = codes "stop_on_error"

unfoldable pub replay_failure_policy_valid : Bytes → Bool
replay_failure_policy_valid policy = same policy policy_continue || same policy policy_stop

unfoldable pub normalize_replay_failure_policy : Bytes → Bytes → Bytes
normalize_replay_failure_policy policy fallback =
    if replay_failure_policy_valid policy
    then policy
    else if replay_failure_policy_valid fallback
    then fallback
    else policy_continue

valid_keeps :
    (policy fallback : Bytes)
    → replay_failure_policy_valid policy ≡ true
    → normalize_replay_failure_policy policy fallback ≡ policy
unfolding normalize_replay_failure_policy
valid_keeps policy fallback h = rw h

normalize_valid :
    (policy fallback : Bytes)
    → replay_failure_policy_valid (normalize_replay_failure_policy policy fallback) ≡ true
unfolding normalize_replay_failure_policy
normalize_valid policy fallback = elim (Bool-cases (replay_failure_policy_valid policy)) [
  | inl h ↦ rw h h
  | inr h ↦ elim (Bool-cases (replay_failure_policy_valid fallback)) [
    | inl k ↦ rw (h, k) k
    | inr k ↦ rw (h, k) (unfold replay_failure_policy_valid in refl)
  ]
]

-- The normalised policy is one of the two that the replay knows, whatever is asked for and whatever
-- the fallback is; to normalise it again changes nothing; and the policies that stay as they are
-- asked for are exactly those that the replay knows.
pub normalize_replay_failure_policy_lem :
    (policy fallback other : Bytes)
    → (replay_failure_policy_valid (normalize_replay_failure_policy policy fallback) ≡ true)
      × (normalize_replay_failure_policy (normalize_replay_failure_policy policy fallback) other
          ≡ normalize_replay_failure_policy policy fallback)
      × ((normalize_replay_failure_policy policy fallback ≡ policy)
          ↔ (replay_failure_policy_valid policy ≡ true))
normalize_replay_failure_policy_lem policy fallback other = (
  normalize_valid policy fallback,
  valid_keeps _ other (normalize_valid policy fallback),
  (λ e. rw e at (normalize_valid policy fallback), valid_keeps policy fallback),
)
