-- ===== src/Replay/Run/File/Laws.antt =====
-- A replay file of several lines, the first of which is an action.
use gdb_cli_tools.Prelude.{
  ◌≡◌, refl, ap, ◌∙◌, Bool, false, Option, none, ◌∷◌, ◌++◌, is_empty, Bytes, newline,
}
use gdb_cli_tools.Prelude.Parsed.{skip_space}
use gdb_cli_tools.Text.{trim}
use gdb_cli_tools.Task.Load.{DebugTask}
use gdb_cli_tools.Json.Value.{Json, Members, object, no_members, member}
use gdb_cli_tools.Json.Dump.{dump_json}
use gdb_cli_tools.Json.Dump.Scalars.{IsReadable}
use gdb_cli_tools.Json.Dump.Trailing.{parse_json-trailing}
use gdb_cli_tools.Action.{ActionRequest}
use gdb_cli_tools.Action.Fields.{Numbers}
use gdb_cli_tools.Replay.Run.{Session}
use gdb_cli_tools.Replay.Run.File.{
  content, read_json, replay_json, replay_content, replay_action_file,
}

module _ {N : Type 0} (from_chars : Bytes → Option N) (parse : Json N → ActionRequest) {W : Type 0}
    (session : Session W) (numbers : Numbers N) (print : N → Bytes) (stem file : Bytes) where
  read_json-trailing :
      (m : Members N) (t : Bytes)
      → IsReadable from_chars print (object m)
      → is_empty (skip_space t) ≡ false
      → read_json from_chars (dump_json print (object m) ++ newline ∷ t) ≡ none
  unfolding read_json
  read_json-trailing m t p more =
      rw (read_json, parse_json-trailing from_chars print (object m) t p more)

  replay_content-brace :
      (task : Option DebugTask) (force : Bool) (override s : Bytes) (w : W)
      → read_json from_chars (b'{' ∷ s) ≡ none
      → replay_content from_chars parse session numbers print stem file task force override
          (b'{' ∷ s)
          w
        ≡ (w, none)
  unfolding replay_content
  replay_content-brace task force override s w e =
      ap (λ o. replay_json from_chars parse session numbers print stem file task force override o w)
        e
      ∙ unfold replay_json in refl

  two_lines :
      (m : Members N) (t : Bytes) (task : Option DebugTask) (force : Bool) (override : Bytes)
      (w : W)
      → read_json from_chars (dump_json print (object m) ++ newline ∷ t) ≡ none
      → replay_content from_chars parse session numbers print stem file task force override
          (dump_json print (object m) ++ newline ∷ t)
          w
        ≡ (w, none)
  unfolding dump_json
  two_lines no_members t task force override w e = replay_content-brace task force override _ w e
  two_lines (member k v m) t task force override w e =
      replay_content-brace task force override _ w e

  -- A replay file whose first line is the text that dump_json prints of an object, and that has more
  -- than white space on the lines behind it, is refused by an exception, whatever those lines are; no
  -- step is run. The object is one whose printed text parse_json reads back: the members of every
  -- object in it stand in the order of their keys, as in a std::map, and every number is read back
  -- from what is printed of it.
  pub replay_action_file_lines :
      (m : Members N) (t s : Bytes) (task : Option DebugTask) (force : Bool) (override : Bytes)
      (w : W)
      → IsReadable from_chars print (object m)
      → is_empty (skip_space t) ≡ false
      → trim s ≡ dump_json print (object m) ++ newline ∷ t
      → replay_action_file from_chars parse session numbers print stem file
          (content s)
          task
          force
          override
          w
        ≡ (w, none)
  unfolding replay_action_file
  replay_action_file_lines m t s task force override w p more e =
      ap
        (λ l.
          replay_content from_chars parse session numbers print stem file task force override l w)
        e
      ∙ two_lines m t task force override w (read_json-trailing m t p more)
