-- ===== src/Replay/Validate/Laws.antt =====
-- What the validation of a replay plan says.
use gdb_cli_tools.Prelude.{
  ap, ℕ, ◌≡◌, refl, ◌⊎◌, inl, inr, Bool, true, false, not, ◌&&◌, Option, none, some, [], ◌∷◌, ◌++◌,
  if◌then◌else◌, if_both, is_empty, Bytes, codes, same,
}
use gdb_cli_tools.Json.Value.{Json, null, bool, number, string, array, object, find, string_or}
use gdb_cli_tools.Task.Load.{ℤ, DebugTask}
use gdb_cli_tools.Replay.Fingerprint.{replay_task_fingerprint}
use gdb_cli_tools.Replay.Validate.{
  ReplayPlanValidation, replay_plan_schema, initial, add_warning, is_one, mismatch_text,
  compare_fingerprints, check_current, check_fingerprint, version_of, no_metadata, not_object,
  check_task, bad_version, bad_schema, check_version, validate_replay_plan,
}

-- A fingerprint that stands in the plan is not that of the task.
abbrev pub differs : Bytes → Option DebugTask → Bool
differs fingerprint none = false
differs fingerprint (some task) =
    not (is_empty fingerprint) && not (same fingerprint (replay_task_fingerprint task))

abbrev pub other_task : {N : Type 0} → Option (Json N) → Option DebugTask → Bool
other_task (some (object m)) task = differs (string_or (object m) (codes "fingerprint") []) task
other_task _ task = false

-- The plan has the fingerprint of another task than the one that is loaded.
abbrev pub is_for_other_task : {N : Type 0} → Json N → Option DebugTask → Bool
is_for_other_task plan task = other_task (find plan (codes "task")) task

-- What is said of a plan; `other` says that it is for another task.
pub record IsSound (force other : Bool) (r : ReplayPlanValidation) : Type 0 where
  pub told : is_empty r.error ≡ r.ok
  pub judged :
      (r.ok ≡ false)
      ⊎ ((other ≡ false) × (r.task_metadata_match ≡ true))
      ⊎ ((other ≡ true)
          × ((r.task_metadata_match ≡ false) × ((force ≡ true) × (is_empty r.warning ≡ false))))

-- A result before the fingerprints are compared.
abbrev Fresh : ReplayPlanValidation → Type 0
Fresh r = (r.ok ≡ true) × (r.error ≡ []) × (r.task_metadata_match ≡ true)

add_warning-IsSound :
    (force : Bool) (text : Bytes) (r : ReplayPlanValidation)
    → Fresh r
    → IsSound force false (add_warning text r)
unfolding add_warning
add_warning-IsSound force text r (o, e, m) = record {
  told = rw (e, o) refl;
  judged = inr (inl (refl, m));
}

is_empty-append_cons : (s : Bytes) (c : ℕ) (t : Bytes) → is_empty (s ++ c ∷ t) ≡ false
is_empty-append_cons [] c t = refl
is_empty-append_cons (d ∷ s) c t = refl

compare_fingerprints-IsSound :
    (force : Bool) (r : ReplayPlanValidation)
    → Fresh r
    → IsSound force
        (not (same r.plan_fingerprint r.current_fingerprint))
        (compare_fingerprints force r)
unfolding compare_fingerprints mismatch_text add_warning
compare_fingerprints-IsSound true r (o, e, m) =
    let other = not (same r.plan_fingerprint r.current_fingerprint) in
    if_both (IsSound true other) (same r.plan_fingerprint r.current_fingerprint) _ _
      (λ h. record { told = rw (e, o) refl; judged = inr (inl (ap not h, h)) })
      (λ h. record {
        told = rw (e, o) refl;
        judged = inr (inr (ap not h, (h, (refl, is_empty-append_cons _ _ _))));
      })
compare_fingerprints-IsSound false r (o, e, m) =
    let other = not (same r.plan_fingerprint r.current_fingerprint) in
    if_both (IsSound false other) (same r.plan_fingerprint r.current_fingerprint) _ _
      (λ h. record { told = rw (e, o) refl; judged = inr (inl (ap not h, h)) })
      (λ _. record { told = refl; judged = inl refl })

check_current-IsSound :
    (task : Option DebugTask) (force : Bool) (r : ReplayPlanValidation)
    → Fresh r
    → is_empty r.plan_fingerprint ≡ false
    → IsSound force (differs r.plan_fingerprint task) (check_current task force r)
unfolding check_current
check_current-IsSound none force r f e = add_warning-IsSound force _ r f
check_current-IsSound (some task) force r f e = rw e (
    compare_fingerprints-IsSound force
      (record r { current_fingerprint = replay_task_fingerprint task }) f)

check_fingerprint-IsSound :
    (task : Option DebugTask) (force : Bool) (r : ReplayPlanValidation)
    → Fresh r
    → IsSound force (differs r.plan_fingerprint task) (check_fingerprint task force r)
unfolding check_fingerprint
check_fingerprint-IsSound task force r f =
    if_both (IsSound force (differs r.plan_fingerprint task)) (is_empty r.plan_fingerprint) _ _
      (λ e. rw (differs-empty r.plan_fingerprint task e) (add_warning-IsSound force _ r f))
      (λ e. check_current-IsSound task force r f e)
  where
    differs-empty :
        (s : Bytes) (task : Option DebugTask) → is_empty s ≡ true → differs s task ≡ false
    differs-empty s none e = refl
    differs-empty s (some task) e = rw e

bad_schema-IsSound :
    (force other : Bool) (r : ReplayPlanValidation) → IsSound force other (bad_schema r)
unfolding bad_schema
bad_schema-IsSound force other r = record { told = refl; judged = inl refl }

module _ {N : Type 0} (to_int : N → ℤ) where
  check_task-IsSound :
      (v : Option (Json N)) (task : Option DebugTask) (force : Bool) (r : ReplayPlanValidation)
      → Fresh r
      → IsSound force (other_task v task) (check_task to_int v task force r)
  unfolding check_task no_metadata not_object
  check_task-IsSound none task force r f = add_warning-IsSound force _ r f
  check_task-IsSound (some null) task force r f = add_warning-IsSound force _ r f
  check_task-IsSound (some (bool b)) task force r f = record { told = refl; judged = inl refl }
  check_task-IsSound (some (number x)) task force r f = record { told = refl; judged = inl refl }
  check_task-IsSound (some (string s)) task force r f = record { told = refl; judged = inl refl }
  check_task-IsSound (some (array xs)) task force r f = record { told = refl; judged = inl refl }
  check_task-IsSound (some (object m)) task force r f =
      check_fingerprint-IsSound task force
        (record r {
          task_metadata_available = true;
          plan_fingerprint = string_or (object m) (codes "fingerprint") [];
        })
        f

  bad_version-IsSound :
      (force other : Bool) (r : ReplayPlanValidation) → IsSound force other (bad_version to_int r)
  unfolding bad_version
  bad_version-IsSound force other r = record { told = refl; judged = inl refl }

  check_version-IsSound :
      (plan : Json N) (task : Option DebugTask) (force : Bool) (r : ReplayPlanValidation)
      → Fresh r
      → IsSound force (is_for_other_task plan task) (check_version to_int plan task force r)
  unfolding check_version
  check_version-IsSound plan task force r f =
      let r' = record r {
        schema_version = version_of to_int (find plan (codes "schema_version"));
      } in
      if_both (IsSound force (is_for_other_task plan task)) (not (is_one r'.schema_version))
        (bad_version to_int r') (check_task to_int (find plan (codes "task")) task force r')
        (λ _. bad_version-IsSound force (is_for_other_task plan task) r')
        (λ _. check_task-IsSound (find plan (codes "task")) task force r' f)

  -- Whatever the plan is, and whether or not a task is loaded: the validation has an error text
  -- exactly when it is not ok. Where it is ok, its flag for a match is false exactly for a plan with a
  -- fingerprint that is not empty and is not the one of the loaded task; and such a plan is ok only when
  -- it is forced, and has a warning then.
  pub validate_replay_plan-IsSound :
      (plan : Json N) (task : Option DebugTask) (force : Bool)
      → IsSound force (is_for_other_task plan task) (validate_replay_plan to_int plan task force)
  unfolding validate_replay_plan
  validate_replay_plan-IsSound plan task force =
      let schema = string_or plan (codes "schema") [] in
      let legacy = record (initial schema) {
        warning =
            codes
              "legacy replay plan has no schema; defaulting to gdb-agent-replay-plan-v1 compatibility";
      } in
      let r = if is_empty schema then legacy else initial schema in
      if_both (IsSound force (is_for_other_task plan task))
        (not (is_empty schema) && not (same schema replay_plan_schema))
        (bad_schema (initial schema)) (check_version to_int plan task force r)
        (λ _. bad_schema-IsSound force (is_for_other_task plan task) (initial schema))
        (λ _. check_version-IsSound plan task force r (
          if_both Fresh (is_empty schema) legacy (initial schema) (λ _. (refl, refl, refl))
            (λ _. (refl, refl, refl))))
