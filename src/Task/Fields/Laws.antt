-- ===== src/Task/Fields/Laws.antt =====
-- The sections of a task file and its fields.
use gdb_cli_tools.Prelude.{
  ◌≡◌, refl, sym, ap, ◌∙◌, false, Option, none, some, List, [], ◌∷◌, ◌++◌, append_assoc, append-nil,
  if◌then◌else◌, is_empty, All, Bytes, newline, same, has_char,
}
use gdb_cli_tools.Text.{trim, lower, starts_with}
use gdb_cli_tools.Task.Env.{assign, lookup, lines_of}
use gdb_cli_tools.Task.Env.Laws.{lookup-assign, lines_of-line}
use gdb_cli_tools.Task.Fields.{
  FieldState, no_fields, heading, flush, add_line, field_step, fields_loop, parse_markdown_fields,
}

abbrev pub Section : Type 0
Section = Bytes × List Bytes

abbrev pub unlines : List Bytes → Bytes
unlines [] = []
unlines (line ∷ lines) = line ++ newline ∷ unlines lines

abbrev pub section_lines : List Section → List Bytes
section_lines [] = []
section_lines ((title, body) ∷ sections) = (heading ++ title) ∷ (body ++ section_lines sections)

abbrev pub key_of : Bytes → Bytes
key_of title = lower (trim title)

-- A line of a section's body: no line feed in it, and no heading.
abbrev pub IsBodyLine : Bytes → Type 0
IsBodyLine line = (has_char newline line ≡ false) × (starts_with line heading ≡ false)

abbrev pub IsSection : Section → Type 0
IsSection (title, body) =
    (has_char newline title ≡ false) × (is_empty (key_of title) ≡ false) × All IsBodyLine body

-- The field that the last section under a title gives.
abbrev pub last_field : Bytes → List Section → Option Bytes → Option Bytes
last_field key [] so_far = so_far
last_field key ((title, body) ∷ sections) so_far =
    last_field key sections (if same (key_of title) key then some (trim (unlines body)) else so_far)

add_line_keyed :
    (s : FieldState) (line : Bytes)
    → is_empty s.current_key ≡ false
    → add_line s line ≡ record s { current_value = s.current_value ++ (line ++ newline ∷ []) }
unfolding add_line
add_line_keyed s line h = rw h

body_run :
    (s : FieldState) (body rest : List Bytes)
    → is_empty s.current_key ≡ false
    → All IsBodyLine body
    → fields_loop s (body ++ rest)
      ≡ fields_loop (record s { current_value = s.current_value ++ unlines body }) rest
unfolding fields_loop field_step
body_run s [] rest k h =
    ap (λ v. fields_loop (record s { current_value = v }) rest) (sym (append-nil s.current_value))
body_run s (line ∷ body) rest k (h, hs) =
    ap (λ t. fields_loop t (body ++ rest)) (rw (h.1) (add_line_keyed s line k))
    ∙ body_run (record s { current_value = s.current_value ++ (line ++ newline ∷ []) }) body rest k
        hs
    ∙ ap (λ v. fields_loop (record s { current_value = v }) rest)
        (append_assoc s.current_value (line ++ newline ∷ []) (unlines body)
          ∙ ap (λ t. s.current_value ++ t) (append_assoc line (newline ∷ []) (unlines body)))

-- The state behind a heading and its body.
abbrev entered : FieldState → Bytes → List Bytes → FieldState
entered s title body = record {
  fields = (flush s).fields;
  current_key = key_of title;
  current_value = unlines body;
}

section_run :
    (s : FieldState) (title : Bytes) (body rest : List Bytes)
    → (flush s).current_value ≡ []
    → IsSection (title, body)
    → fields_loop s ((heading ++ title) ∷ (body ++ rest)) ≡ fields_loop (entered s title body) rest
unfolding fields_loop field_step
section_run s title body rest e (n, k, hs) =
    ap (λ t. fields_loop t (body ++ rest)) {y = record (flush s) { current_key = key_of title }}
      refl
    ∙ body_run (record (flush s) { current_key = key_of title }) body rest k hs
    ∙ ap
        (λ v.
          fields_loop (record (entered s title body) { current_value = v ++ unlines body }) rest)
        e

flush_keyed :
    (s : FieldState)
    → is_empty s.current_key ≡ false
    → flush s ≡ record s {
      fields = assign s.current_key (trim s.current_value) s.fields;
      current_value = [];
    }
unfolding flush
flush_keyed s h = rw h

sections_run :
    (key : Bytes) (s : FieldState) (sections : List Section)
    → (flush s).current_value ≡ []
    → All IsSection sections
    → lookup key (flush (fields_loop s (section_lines sections))).fields
      ≡ last_field key sections (lookup key (flush s).fields)
sections_run key s [] e h = unfold fields_loop in refl
sections_run key s ((title, body) ∷ sections) e (h, hs) =
    let s' = entered s title body in
    let f = flush_keyed s' h.1 in
    ap (λ t. lookup key (flush t).fields) (section_run s title body (section_lines sections) e h)
    ∙ sections_run key s' sections (ap (λ t. t.current_value) f) hs
    ∙ ap (last_field key sections) (
        ap (λ t. lookup key t.fields) f
        ∙ lookup-assign key (key_of title) (trim (unlines body)) (flush s).fields)

lines_of-unlines :
    (lines : List Bytes)
    → All (λ l. has_char newline l ≡ false) lines
    → lines_of (unlines lines) ≡ lines
lines_of-unlines [] h = unfold lines_of in refl
lines_of-unlines (line ∷ lines) (h, hs) =
    lines_of-line line (unlines lines) h ∙ ap (λ l. line ∷ l) (lines_of-unlines lines hs)

body_one_line :
    (body rest : List Bytes)
    → All IsBodyLine body
    → All (λ l. has_char newline l ≡ false) rest
    → All (λ l. has_char newline l ≡ false) (body ++ rest)
body_one_line [] rest h k = k
body_one_line (line ∷ body) rest (h, hs) k = (h.0, body_one_line body rest hs k)

sections_one_line :
    (sections : List Section)
    → All IsSection sections
    → All (λ l. has_char newline l ≡ false) (section_lines sections)
sections_one_line [] h = tt
sections_one_line ((title, body) ∷ sections) (h, hs) =
    (h.0, body_one_line body (section_lines sections) h.2 (sections_one_line sections hs))

-- A file of sections, each a heading with a title and lines that are no headings, is read as one
-- field for each title, in small letters and trimmed: the field is the trimmed text below the last
-- heading with that title, and a title without a heading has no field.
pub parse_markdown_fields-unlines :
    (key : Bytes) (sections : List Section)
    → All IsSection sections
    → lookup key (parse_markdown_fields (unlines (section_lines sections)))
      ≡ last_field key sections none
unfolding parse_markdown_fields
parse_markdown_fields-unlines key sections h =
    ap (λ l. lookup key (flush (fields_loop no_fields l)).fields)
      (lines_of-unlines (section_lines sections) (sections_one_line sections h))
    ∙ sections_run key no_fields sections (unfold flush in refl) h
    ∙ ap (last_field key sections) (unfold flush lookup in refl)
