-- ===== src/Record/Artifact.antt =====
-- write_record_artifact and read_record_artifact of src/replay/record_store.cpp, as far as the bytes
-- go. An action is stored as the JSON text of its request: `codec` stands for the conversions of
-- src/cli/action.cpp together with dump_json and parse_json.
pub mod RoundTrip
use gdb_cli_tools.Prelude.{
  ℕ, zero, suc, Option, none, some, List, [], ◌∷◌, ◌++◌, ltb, ◌==◌, if◌then◌else◌, length, is_empty,
  Bytes, codes, same,
}
use gdb_cli_tools.Replay.Policy.{normalize_replay_failure_policy, policy_continue}
use gdb_cli_tools.Record.Stream.{
  ◌>>=◌, Reader, pure, refuse, read_bytes, u32_max, write_u32, read_u32, write_string, read_string,
}

pub record RecordedActionGroup (A : Type 0) : Type 0 where
  pub name : Bytes
  pub source_session_id : Bytes
  pub created_at : Bytes
  pub failure_policy : Bytes
  pub task_metadata_json : Bytes
  pub actions : List A

-- dump_json(action_request_to_json(action)), and parse_json with the test that the payload is an
-- object and parse_action_request; `none` is an exception.
pub record ActionCodec (A : Type 0) : Type 0 where
  pub encode : A → Bytes
  pub decode : Bytes → Option A

abbrev pub artifact_magic : Bytes
artifact_magic = codes "GDBA_REC1"

abbrev pub artifact_version : ℕ
artifact_version = 1

-- Two writes in a row; an exception ends the writing.
abbrev pub then_write : Option Bytes → Option Bytes → Option Bytes
then_write none t = none
then_write (some s) none = none
then_write (some s) (some t) = some (s ++ t)

-- The metadata that is written: an empty text stands for null.
unfoldable pub metadata_text : Bytes → Bytes
metadata_text json = if is_empty json then codes "null" else json

module _ {A : Type 0} (codec : ActionCodec A) where
  unfoldable pub write_actions : List A → Option Bytes
  write_actions [] = some []
  write_actions (a ∷ actions) = then_write (write_string (codec.encode a)) (write_actions actions)

  unfoldable pub write_count : List A → Option Bytes
  write_count actions =
      if ltb u32_max (length actions) then none else some (write_u32 (length actions))

  unfoldable pub artifact_bytes : RecordedActionGroup A → Option Bytes
  unfolding write_actions write_count metadata_text
  artifact_bytes group = then_write (some artifact_magic) (
      then_write (some (write_u32 artifact_version)) (
        then_write (write_string group.name) (
          then_write (write_string group.source_session_id) (
            then_write (write_string group.created_at) (
              then_write
                (write_string
                  (normalize_replay_failure_policy group.failure_policy policy_continue))
                (then_write (write_string (metadata_text group.task_metadata_json))
                  (then_write (write_count group.actions) (write_actions group.actions))))))))

  unfoldable pub decode_action : Bytes → Reader A
  decode_action text = elim (codec.decode text) [ none ↦ refuse | some a ↦ pure a ]

  unfoldable pub read_actions : ℕ → Reader (List A)
  unfolding decode_action
  read_actions zero = pure []
  read_actions (suc n) = do
    text ← read_string
    a ← decode_action text
    actions ← read_actions n
    pure (a ∷ actions)

  unfoldable pub check_magic : Bytes → Reader (Unit {0})
  check_magic magic = if same magic artifact_magic then pure tt else refuse

  unfoldable pub check_version : ℕ → Reader (Unit {0})
  check_version version = if version == artifact_version then pure tt else refuse

  unfoldable pub read_artifact : Reader (RecordedActionGroup A)
  unfolding read_actions check_magic check_version
  read_artifact = do
    magic ← read_bytes (length artifact_magic)
    _ ← check_magic magic
    version ← read_u32
    _ ← check_version version
    name ← read_string
    source_session_id ← read_string
    created_at ← read_string
    policy ← read_string
    metadata ← read_string
    count ← read_u32
    actions ← read_actions count
    pure (record {
      name = name;
      source_session_id = source_session_id;
      created_at = created_at;
      failure_policy = normalize_replay_failure_policy policy policy_continue;
      task_metadata_json = metadata;
      actions = actions;
    })
