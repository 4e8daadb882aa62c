-- ===== src/Tests/Record.antt =====
-- Examples for the artifacts and the recording state. An action is a text, stored as it is.
use gdb_cli_tools.Prelude.{
  ◌++◌, take, length, ltb→lt, ◌≡◌, refl, false, none, some, List, [], ◌∷◌, if◌then◌else◌, Bytes,
  codes, same,
}
use gdb_cli_tools.Record.Artifact.{RecordedActionGroup, ActionCodec, artifact_bytes, read_artifact}
use gdb_cli_tools.Record.Artifact.RoundTrip.{stored, read_artifact-artifact_bytes}
use gdb_cli_tools.Record.Stream.{write_string}
use gdb_cli_tools.Replay.Policy.{normalize_replay_failure_policy, replay_failure_policy_valid}
use gdb_cli_tools.Record.Files.{
  Files, fails, works, temp_path, write_record_artifact, read_record_artifact,
  write_record_artifact_atomic, read-write_record_artifact, commit,
}
use gdb_cli_tools.Record.State.{
  Event, started, appended, blank, replay_events, recorded, IsValid, replay_events-blank,
}

abbrev text_codec : ActionCodec Bytes
text_codec = record { encode = λ a. a; decode = λ s. some s }

abbrev group : RecordedActionGroup Bytes
group = record {
  name = codes "crash";
  source_session_id = codes "s1";
  created_at = [];
  failure_policy = codes "never";
  task_metadata_json = [];
  actions = codes "{}" ∷ codes "{\"a\":1}" ∷ [];
}

abbrev stored_bytes : Bytes
stored_bytes = elim (artifact_bytes text_codec group) [ some text ↦ text | none ↦ [] ]

read_artifact-artifact_bytes_example :
    (read_artifact text_codec (stored_bytes ++ codes "more")
      ≡ some (stored text_codec group, codes "more"))
    × (read_artifact text_codec (take 20 stored_bytes) ≡ none)
unfolding artifact_bytes write_string normalize_replay_failure_policy replay_failure_policy_valid
read_artifact-artifact_bytes_example =
    read_artifact-artifact_bytes text_codec group stored_bytes (codes "more") 20 (refl, (refl, tt))
      refl (ltb→lt 20 (length stored_bytes) refl)

abbrev disk : Files
disk q = if same q (codes "a.rec") then some (codes "old") else none

write_record_artifact_atomic_example :
    (write_record_artifact text_codec (fails (codes "GDB")) [] disk (codes "a.rec") group).0
      (codes "a.rec")
    ≡ disk (codes "a.rec")
unfolding write_record_artifact temp_path
write_record_artifact_atomic_example =
    write_record_artifact_atomic text_codec [] disk (codes "a.rec") group (fails (codes "GDB")) refl
      (codes "a.rec") refl

read-write_record_artifact_example :
    let files' = (write_record_artifact text_codec works [] disk (codes "a.rec") group).0 in
    (read_record_artifact text_codec files' (codes "a.rec") ≡ some (stored text_codec group))
    × (files' (temp_path (codes "a.rec")) ≡ none)
    × (files' (codes "b") ≡ disk (codes "b"))
unfolding write_record_artifact temp_path commit artifact_bytes write_string
    normalize_replay_failure_policy replay_failure_policy_valid
read-write_record_artifact_example =
    read-write_record_artifact text_codec [] disk (codes "a.rec") group (codes "b")
      (refl, (refl, tt)) refl refl refl

abbrev history : List (Event Bytes)
history =
    appended (codes "early")
    ∷ started (codes "r") [] false
    ∷ appended (codes "run")
    ∷ appended (codes "bt")
    ∷ []

replay_events-blank_example :
    IsValid (replay_events blank history)
    × ((replay_events blank history).actions ≡ recorded false [] history)
replay_events-blank_example = replay_events-blank history
