-- ===== src/Action/Kind.antt =====
-- enum ActionKind of src/cli/action.hpp, action_kind_name and action_kind_from_name of
-- src/cli/action.cpp.
use gdb_cli_tools.Prelude.{
  ◌≡◌, refl, ◌⊎◌, inl, inr, List, [], ◌∷◌, if◌then◌else◌, if_both, All, Bytes, codes, same, same→eq,
}

pub data ActionKind : Type 0 where
  unknown finish_session backtrace locals registers threads args_info frame_select : ActionKind
  evaluate breakpoint_set watchpoint_set catchpoint_set : ActionKind
  probe_list probe_enable probe_disable probe_delete : ActionKind
  run continue save_action replay : ActionKind
  hypothesis_create hypothesis_check hypothesis_conclude raw_mi : ActionKind
  record_start record_status record_stop record_discard : ActionKind

unfoldable pub action_kind_name : ActionKind → Bytes
action_kind_name finish_session = codes "finish_session"
action_kind_name backtrace = codes "backtrace"
action_kind_name locals = codes "locals"
action_kind_name registers = codes "registers"
action_kind_name threads = codes "threads"
action_kind_name args_info = codes "args_info"
action_kind_name frame_select = codes "frame_select"
action_kind_name evaluate = codes "evaluate"
action_kind_name breakpoint_set = codes "breakpoint_set"
action_kind_name watchpoint_set = codes "watchpoint_set"
action_kind_name catchpoint_set = codes "catchpoint_set"
action_kind_name probe_list = codes "probe_list"
action_kind_name probe_enable = codes "probe_enable"
action_kind_name probe_disable = codes "probe_disable"
action_kind_name probe_delete = codes "probe_delete"
action_kind_name run = codes "run"
action_kind_name continue = codes "continue"
action_kind_name save_action = codes "save_action"
action_kind_name replay = codes "replay"
action_kind_name hypothesis_create = codes "hypothesis_create"
action_kind_name hypothesis_check = codes "hypothesis_check"
action_kind_name hypothesis_conclude = codes "hypothesis_conclude"
action_kind_name raw_mi = codes "raw_mi"
action_kind_name record_start = codes "record_start"
action_kind_name record_status = codes "record_status"
action_kind_name record_stop = codes "record_stop"
action_kind_name record_discard = codes "record_discard"
action_kind_name unknown = []

-- The tests of action_kind_from_name in their order.
abbrev pub kind_tests : List (Bytes × ActionKind)
kind_tests =
    (codes "finish_session", finish_session)
    ∷ (codes "finish", finish_session)
    ∷ (codes "backtrace", backtrace)
    ∷ (codes "locals", locals)
    ∷ (codes "registers", registers)
    ∷ (codes "threads", threads)
    ∷ (codes "args_info", args_info)
    ∷ (codes "frame_select", frame_select)
    ∷ (codes "evaluate", evaluate)
    ∷ (codes "breakpoint_set", breakpoint_set)
    ∷ (codes "watchpoint_set", watchpoint_set)
    ∷ (codes "catchpoint_set", catchpoint_set)
    ∷ (codes "probe_list", probe_list)
    ∷ (codes "probe_enable", probe_enable)
    ∷ (codes "probe_disable", probe_disable)
    ∷ (codes "probe_delete", probe_delete)
    ∷ (codes "run", run)
    ∷ (codes "continue", continue)
    ∷ (codes "save_action", save_action)
    ∷ (codes "replay", replay)
    ∷ (codes "hypothesis_create", hypothesis_create)
    ∷ (codes "hypothesis_check", hypothesis_check)
    ∷ (codes "hypothesis_conclude", hypothesis_conclude)
    ∷ (codes "raw_mi", raw_mi)
    ∷ (codes "record_start", record_start)
    ∷ (codes "record_status", record_status)
    ∷ (codes "record_stop", record_stop)
    ∷ (codes "record_discard", record_discard)
    ∷ []

unfoldable pub first_kind : Bytes → List (Bytes × ActionKind) → ActionKind
first_kind name [] = unknown
first_kind name ((n, kind) ∷ tests) = if same name n then kind else first_kind name tests

unfoldable pub action_kind_from_name : Bytes → ActionKind
unfolding first_kind
action_kind_from_name name = first_kind name kind_tests

-- The name of a kind is read back as that kind, for every kind.
pub action_kind_from_name-action_kind_name :
    (kind : ActionKind) → action_kind_from_name (action_kind_name kind) ≡ kind
unfolding action_kind_from_name action_kind_name
action_kind_from_name-action_kind_name unknown = refl
action_kind_from_name-action_kind_name finish_session = refl
action_kind_from_name-action_kind_name backtrace = refl
action_kind_from_name-action_kind_name locals = refl
action_kind_from_name-action_kind_name registers = refl
action_kind_from_name-action_kind_name threads = refl
action_kind_from_name-action_kind_name args_info = refl
action_kind_from_name-action_kind_name frame_select = refl
action_kind_from_name-action_kind_name evaluate = refl
action_kind_from_name-action_kind_name breakpoint_set = refl
action_kind_from_name-action_kind_name watchpoint_set = refl
action_kind_from_name-action_kind_name catchpoint_set = refl
action_kind_from_name-action_kind_name probe_list = refl
action_kind_from_name-action_kind_name probe_enable = refl
action_kind_from_name-action_kind_name probe_disable = refl
action_kind_from_name-action_kind_name probe_delete = refl
action_kind_from_name-action_kind_name run = refl
action_kind_from_name-action_kind_name continue = refl
action_kind_from_name-action_kind_name save_action = refl
action_kind_from_name-action_kind_name replay = refl
action_kind_from_name-action_kind_name hypothesis_create = refl
action_kind_from_name-action_kind_name hypothesis_check = refl
action_kind_from_name-action_kind_name hypothesis_conclude = refl
action_kind_from_name-action_kind_name raw_mi = refl
action_kind_from_name-action_kind_name record_start = refl
action_kind_from_name-action_kind_name record_status = refl
action_kind_from_name-action_kind_name record_stop = refl
action_kind_from_name-action_kind_name record_discard = refl

abbrev Names : Bytes × ActionKind → Type 0
Names (n, kind) = (action_kind_name kind ≡ n) ⊎ (n ≡ codes "finish")

first_kind_lem :
    (name : Bytes) (tests : List (Bytes × ActionKind))
    → All Names tests
    → (first_kind name tests ≡ unknown)
      ⊎ ((action_kind_name (first_kind name tests) ≡ name) ⊎ (name ≡ codes "finish"))
unfolding first_kind
first_kind_lem name [] h = inl refl
first_kind_lem name ((n, kind) ∷ tests) (p, h) =
    if_both (λ k. (k ≡ unknown) ⊎ ((action_kind_name k ≡ name) ⊎ (name ≡ codes "finish")))
      (same name n) kind (first_kind name tests) (λ e. inr (rw (same→eq name n e) p))
      (λ e. first_kind_lem name tests h)

-- A name is unknown, or it is the name of the kind that it stands for, or it is the short name
-- finish.
pub action_kind_from_name-cases :
    (name : Bytes)
    → (action_kind_from_name name ≡ unknown)
      ⊎ ((action_kind_name (action_kind_from_name name) ≡ name) ⊎ (name ≡ codes "finish"))
unfolding action_kind_from_name action_kind_name
action_kind_from_name-cases name = first_kind_lem name kind_tests (
  inl refl,
  (
    inr refl,
    (
      inl refl,
      (
        inl refl,
        (
          inl refl,
          (
            inl refl,
            (
              inl refl,
              (
                inl refl,
                (
                  inl refl,
                  (
                    inl refl,
                    (
                      inl refl,
                      (
                        inl refl,
                        (
                          inl refl,
                          (
                            inl refl,
                            (
                              inl refl,
                              (
                                inl refl,
                                (
                                  inl refl,
                                  (
                                    inl refl,
                                    (
                                      inl refl,
                                      (
                                        inl refl,
                                        (
                                          inl refl,
                                          (
                                            inl refl,
                                            (
                                              inl refl,
                                              (
                                                inl refl,
                                                (inl refl, (inl refl, (inl refl, (inl refl, tt)))),
                                              ),
                                            ),
                                          ),
                                        ),
                                      ),
                                    ),
                                  ),
                                ),
                              ),
                            ),
                          ),
                        ),
                      ),
                    ),
                  ),
                ),
              ),
            ),
          ),
        ),
      ),
    ),
  ),
)
