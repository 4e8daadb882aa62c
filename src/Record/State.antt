-- ===== src/Record/State.antt =====
-- The RecordingState of src/replay/record_store.hpp and the three operations on it.
use gdb_cli_tools.Prelude.{
  ◌≡◌, refl, ap, ◌∙◌, ◌⊎◌, inl, inr, Bool, true, false, not, List, [], ◌∷◌, ◌++◌, arith,
  if◌then◌else◌, Bytes,
}
use gdb_cli_tools.Replay.Policy.{
  normalize_replay_failure_policy, replay_failure_policy_valid, policy_continue,
  normalize_replay_failure_policy_lem,
}

pub record RecordingState (A : Type 0) : Type 0 where
  pub active : Bool
  pub name : Bytes
  pub failure_policy : Bytes
  pub include_raw_mi : Bool
  pub actions : List A
  pub binary_path : Bytes
  pub export_path : Bytes

module _ {A : Type 0} where
  unfoldable pub recording_start : RecordingState A → Bytes → Bytes → Bool → RecordingState A
  recording_start state name failure_policy include_raw_mi = record {
    active = true;
    name = name;
    failure_policy = normalize_replay_failure_policy failure_policy policy_continue;
    include_raw_mi = include_raw_mi;
    actions = [];
    binary_path = [];
    export_path = [];
  }

  unfoldable pub recording_append_action : RecordingState A → A → RecordingState A
  recording_append_action state request =
      if not state.active then state else record state { actions = state.actions ++ request ∷ [] }

  unfoldable pub recording_clear : RecordingState A → RecordingState A
  recording_clear state = record {
    active = false;
    name = [];
    failure_policy = [];
    include_raw_mi = false;
    actions = [];
    binary_path = [];
    export_path = [];
  }

-- A state as its default member initialisers make it.
abbrev pub blank : {A : Type 0} → RecordingState A
blank = record {
  active = false;
  name = [];
  failure_policy = [];
  include_raw_mi = false;
  actions = [];
  binary_path = [];
  export_path = [];
}

-- What happens to the recording of a session, in order.
pub data Event (A : Type 0) : Type 0 where
  started : Bytes → Bytes → Bool → Event A
  appended : A → Event A
  cleared : Event A

module _ {A : Type 0} where
  unfoldable pub apply : RecordingState A → Event A → RecordingState A
  unfolding recording_start recording_append_action recording_clear
  apply state (started name policy raw) = recording_start state name policy raw
  apply state (appended request) = recording_append_action state request
  apply state cleared = recording_clear state

  unfoldable pub replay_events : RecordingState A → List (Event A) → RecordingState A
  unfolding apply
  replay_events state [] = state
  replay_events state (e ∷ events) = replay_events (apply state e) events

  -- An inactive state is blank, and an active one has a policy that the replay knows.
  abbrev pub IsValid : RecordingState A → Type 0
  IsValid state =
      (state ≡ blank)
      ⊎ ((state.active ≡ true) × (replay_failure_policy_valid state.failure_policy ≡ true))

  append-active : (s : RecordingState A) (r : A) → (recording_append_action s r).active ≡ s.active
  unfolding recording_append_action
  append-active s r = ground arith

  append-failure_policy :
      (s : RecordingState A) (r : A)
      → (recording_append_action s r).failure_policy ≡ s.failure_policy
  unfolding recording_append_action
  append-failure_policy s r = ground arith

  append-actions :
      (s : RecordingState A) (r : A)
      → (recording_append_action s r).actions
        ≡ (if s.active then s.actions ++ r ∷ [] else s.actions)
  unfolding recording_append_action
  append-actions s r = ground arith

  append_inactive :
      (s : RecordingState A) (r : A) → s.active ≡ false → recording_append_action s r ≡ s
  unfolding recording_append_action
  append_inactive s r h = ground arith

  apply-IsValid : (state : RecordingState A) (e : Event A) → IsValid state → IsValid (apply state e)
  unfolding apply
  apply-IsValid state (started name policy raw) v =
      inr (refl, (normalize_replay_failure_policy_lem policy policy_continue []).0)
  apply-IsValid state (appended request) (inl e) = inl (rw e (append_inactive blank request refl))
  apply-IsValid state (appended request) (inr (a, p)) =
      inr (append-active state request ∙ a, rw (append-failure_policy state request) p)
  apply-IsValid state cleared v = inl refl

  -- Is a recording on behind the events, and which requests belong to it? The requests of the last
  -- recording that was started, unless it was cleared.
  abbrev pub recorded : Bool → List A → List (Event A) → List A
  recorded on so_far [] = so_far
  recorded on so_far (started name policy raw ∷ events) = recorded true [] events
  recorded on so_far (appended request ∷ events) =
      recorded on (if on then so_far ++ request ∷ [] else so_far) events
  recorded on so_far (cleared ∷ events) = recorded false [] events

  actions-recorded :
      (state : RecordingState A) (events : List (Event A))
      → (replay_events state events).actions ≡ recorded state.active state.actions events
  unfolding replay_events
  actions-recorded state [] = refl
  actions-recorded state (started name policy raw ∷ events) =
      actions-recorded (recording_start state name policy raw) events
  actions-recorded state (appended request ∷ events) =
      actions-recorded (recording_append_action state request) events
      ∙ ap (λ on. recorded on (recording_append_action state request).actions events)
          (append-active state request)
      ∙ ap (λ l. recorded state.active l events) (append-actions state request)
  actions-recorded state (cleared ∷ events) = actions-recorded (recording_clear state) events

  replay_events-IsValid :
      (state : RecordingState A) (events : List (Event A))
      → IsValid state
      → IsValid (replay_events state events)
  unfolding replay_events
  replay_events-IsValid state [] v = v
  replay_events-IsValid state (e ∷ events) v =
      replay_events-IsValid (apply state e) events (apply-IsValid state e v)

  -- Whatever is started, appended and cleared, in any order, from a blank state: the state is blank or a
  -- recording that is on with a known policy, and its actions are the
  -- requests since the last start, or none after a clear.
  pub replay_events-blank :
      (events : List (Event A))
      → IsValid (replay_events blank events)
        × ((replay_events blank events).actions ≡ recorded false [] events)
  replay_events-blank events =
      (replay_events-IsValid blank events (inl refl), actions-recorded blank events)
