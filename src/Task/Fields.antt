-- ===== src/Task/Fields.antt =====
-- parse_markdown_fields of src/task/debug_task.cpp: the headings of a task file and what stands below
-- them. The file is its text; a file that does not open is an exception before any of this.
pub mod Laws
use gdb_cli_tools.Prelude.{
  List, [], ◌∷◌, ◌++◌, if◌then◌else◌, is_empty, drop, Bytes, codes, newline,
}
use gdb_cli_tools.Text.{trim, lower, starts_with}
use gdb_cli_tools.Task.Env.{TextMap, assign, lines_of}

pub record FieldState : Type 0 where
  pub fields : TextMap
  pub current_key : Bytes
  pub current_value : Bytes

abbrev pub no_fields : FieldState
no_fields = record { fields = []; current_key = []; current_value = [] }

abbrev pub heading : Bytes
heading = codes "### "

unfoldable pub flush : FieldState → FieldState
unfolding assign trim
flush s = if is_empty s.current_key then s else record s {
  fields = assign s.current_key (trim s.current_value) s.fields;
  current_value = [];
}

unfoldable pub add_line : FieldState → Bytes → FieldState
add_line s line =
    if is_empty s.current_key
    then s
    else record s { current_value = s.current_value ++ (line ++ newline ∷ []) }

-- One round of the loop over the lines.
unfoldable pub field_step : FieldState → Bytes → FieldState
unfolding starts_with lower trim flush add_line
field_step s line =
    if starts_with line heading
    then record (flush s) { current_key = lower (trim (drop 4 line)) }
    else add_line s line

unfoldable pub fields_loop : FieldState → List Bytes → FieldState
unfolding field_step
fields_loop s [] = s
fields_loop s (line ∷ lines) = fields_loop (field_step s line) lines

unfoldable pub parse_markdown_fields : Bytes → TextMap
unfolding fields_loop lines_of flush
parse_markdown_fields text = (flush (fields_loop no_fields (lines_of text))).fields
